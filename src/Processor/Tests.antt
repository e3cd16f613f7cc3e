-- ===== src/Processor/Tests.antt =====
-- A node with three peers under two names, and the revoke of a key of one of them.
use mathlib.Core.Path.{subst}
use text.Mathlib.Text.{◌==◌ as str_eq}
use amnezia_shared_panel.Base.{
  ℕ, ◌+◌, ◌≡◌, refl, sym, ap, Bool, true, false, not, ◌||◌, List, [], ◌∷◌, Option, none, some,
  String, any, keep, arith,
}
use amnezia_shared_panel.Keys.{revoking}
use amnezia_shared_panel.Panel.{
  Db, Key, Job, RouteProfile, full_tunnel, pending, revoke, attempt_of,
}
use amnezia_shared_panel.Panel.Steps.{Run}
use amnezia_shared_panel.Access.{World}
use amnezia_shared_panel.Processor.{Client, Reply, answers, Agent}
use amnezia_shared_panel.Processor.Keys.{revoke_key, delete_peers, client_of}
use amnezia_shared_panel.Processor.Jobs.{Config}
use amnezia_shared_panel.Processor.Refines.{processor, turn-refines_steps}
use amnezia_shared_panel.Processor.Revoked.{AgentLaws, has_peer, IsRevoked, revoke_key-removes}
use amnezia_shared_panel.Runner.{turn}

-- The peers of one node under the label "k1".
abbrev peers_without : String → List String → List String
peers_without peer n = keep (λ q. not (str_eq q peer)) n

abbrev node_agent : Agent (List String)
node_agent = record {
  list_clients = λ id n. (answers (record { username = "k1"; peers = n } ∷ []), n);
  create_client = λ key n. (answers "new", "new" ∷ n);
  delete_client = λ key peer n. (none, peers_without peer n);
  set_client_status = λ key peer enabled n. (none, n);
  request_agent_update = λ id image n. (none, n);
  request_capacity = λ id max_peers n. (none, n);
}

abbrev holds : List String → String → Bool
holds n peer = any (λ p. str_eq p peer) n

holds-without : (peer : String) (n : List String) → holds (peers_without peer n) peer ≡ false
holds-without peer [] = refl
holds-without peer (p ∷ ps) = ground (arith, holds-without peer ps)

holds-fewer :
    (peer other : String) (n : List String)
    → holds n other ≡ false
    → holds (peers_without peer n) other ≡ false
holds-fewer peer other [] h = refl
holds-fewer peer other (p ∷ ps) h = ground (arith, holds-fewer peer other ps)

abbrev peers_listed : Reply (List Client) → List Client
peers_listed (answers clients) = clients
peers_listed _ = []

node_agent-AgentLaws : AgentLaws node_agent holds
node_agent-AgentLaws = record {
  deletes = λ key peer n h. holds-without peer n;
  adds_none = λ key peer other n h. holds-fewer peer other n h;
  lists_all = λ node_id n m clients peer e h.
      subst (λ cs. has_peer peer cs ≡ true) (ap (λ r. peers_listed r.0) e)
        (subst (λ x. (any (λ p. str_eq p peer) x || false) ≡ true) (sym (ap (λ r. r.1) e))
          (ground (arith, h)));
}

abbrev leaving : Key
leaving = record {
  id = 3;
  owner_id = 1;
  node_id = 5;
  node_label = "k1";
  public_key = some "pk";
  state = revoking;
  device_label = "phone";
  route_profile = full_tunnel;
  route_rule_version_id = none;
  failure_reason = none;
  revoked_at = none;
}

abbrev task : Job
task = record {
  id = 7;
  type = revoke;
  dedup = attempt_of revoke 3 8;
  key_id = some 3;
  arm_id = none;
  node_id = none;
  image = none;
  max_peers = none;
  status = pending;
  attempts = 0;
  available_at = 0;
  created_at = 0;
  locked_at = none;
  completed_at = none;
  last_error = none;
}

abbrev rows : Db
rows = record {
  users = [];
  keys = leaving ∷ [];
  nodes =
      record {
        id = 5;
        enabled = true;
        last_sync_at = none;
        agent_update_image = none;
        capacity_requested_peers = none;
      }
      ∷ [];
  jobs = task ∷ [];
  audit = [];
}

revoke_key-removes_example :
    IsRevoked node_agent 900 holds node_agent-AgentLaws leaving "pk" 7 rows
      (revoke_key node_agent 900 7 leaving rows ("old" ∷ "pk" ∷ [])).error
      (revoke_key node_agent 900 7 leaving rows ("old" ∷ "pk" ∷ [])).rows
      (revoke_key node_agent 900 7 leaving rows ("old" ∷ "pk" ∷ [])).node
revoke_key-removes_example =
    revoke_key-removes node_agent 900 holds node_agent-AgentLaws leaving "pk" 7 rows
      ("old" ∷ "pk" ∷ []) refl

all_deleted : (revoke_key node_agent 900 7 leaving rows ("old" ∷ "pk" ∷ [])).node ≡ []
unfolding revoke_key delete_peers client_of
all_deleted = refl

abbrev world : World
world = record {
  db = rows;
  policy = record { include = []; exclude = []; rest = 0 };
  configured = false;
  desired_domains = [];
  baseline = [];
  baseline_domains = [];
  aborts = [];
  last_aborted = none;
}

abbrev config : Config
config = record {
  lower = λ s. s;
  trim = λ s. s;
  before = λ a b. false;
  sync_enabled = true;
  options = record { bootstrap_admin_emails = []; max_disables_per_run = 10 };
  fetches = true;
  sends = true;
  fresh = λ u k. 100 + k;
  text_of = λ outcome. [];
  feeds = [];
}

abbrev no_rule : RouteProfile → Option ℕ
no_rule profile = none

abbrev after : Db
after = turn 60_000 10 (processor node_agent config no_rule 900 world ("old" ∷ "pk" ∷ [])) 900 rows

turn-refines_steps_example : Run (λ s. s) (λ s. s) no_rule rows after
turn-refines_steps_example =
    turn-refines_steps node_agent config no_rule 60_000 10 900 world ("old" ∷ "pk" ∷ [])
      ((λ e. (refl, refl), tt), tt) (refl, tt) ((λ u k h. omega (arith, h)), tt)
