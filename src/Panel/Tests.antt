-- ===== src/Panel/Tests.antt =====
-- A panel with one user, one key and one job.
use amnezia_shared_panel.Base.{
  length, ◌+◌, ◌≤◌, ◌≡◌, refl, true, false, [], ◌∷◌, Option, none, some, All, keep, first, arith,
}
use amnezia_shared_panel.Keys.{revoking, is_live, counts_for_quota}
use amnezia_shared_panel.Quota.{QuotaContext, per_node}
use amnezia_shared_panel.Panel.{
  admin, Db, User, Key, Job, enabled_user, user, full_tunnel, revoke, access_sync, singleton,
  attempt_of, pending, processing, completed, ok, Answer, committed,
}
use amnezia_shared_panel.Panel.Outbox.{is_claimable, next_job, claim_job}
use amnezia_shared_panel.Panel.Accounts.{
  purge_offboarded_users, reconcile_access, deactivate_by_email,
}
use amnezia_shared_panel.Panel.Accounts.Admins.{admins, HaveOtherIds, reconcile_access-admins}
use amnezia_shared_panel.Panel.Arm.{rearm, settle, settle-rearm}
use amnezia_shared_panel.Panel.Claims.{
  IsNext, next_job-IsNext, claim_job-exclusive, purge_offboarded_users-live,
}
use amnezia_shared_panel.Panel.Create.{
  order_nodes_for_users, Server, Policy, KeyRequest, same, awg3, obstacle, select_server,
  candidates, create_key, count, hosted, Obstacle, user_quota,
}
use amnezia_shared_panel.Panel.Create.Ordering.{IsAscending, order_nodes_for_users-IsAscending}
use amnezia_shared_panel.Panel.Create.Choice.{select_server_lem, choice, is_clear, meets, refusal}
use amnezia_shared_panel.Panel.Create.Bounds.{create_key-bounds, IsCreatedOn, IsWithinQuota}
use amnezia_shared_panel.Panel.Revokes.{RevokesRemembered}
use amnezia_shared_panel.Panel.Steps.{begin, then_step, claim, runs_remember_revokes}

abbrev owner : User
owner = record {
  id = 1;
  email = "a@example.org";
  role = user;
  status = enabled_user;
  disabled_at = none;
}

abbrev leaving : Key
leaving = record {
  id = 3;
  owner_id = 1;
  node_id = 2;
  node_label = "ap_x";
  public_key = some "k";
  state = revoking;
  device_label = "phone";
  route_profile = full_tunnel;
  route_rule_version_id = none;
  failure_reason = none;
  revoked_at = none;
}

abbrev waiting : Job
waiting = record {
  id = 7;
  type = revoke;
  dedup = attempt_of revoke 3 8;
  key_id = some 3;
  arm_id = none;
  node_id = none;
  image = none;
  max_peers = none;
  status = pending;
  attempts = 0;
  available_at = 100;
  created_at = 100;
  locked_at = none;
  completed_at = none;
  last_error = none;
}

abbrev rows : Db
rows = record {
  users = owner ∷ [];
  keys = leaving ∷ [];
  nodes = [];
  jobs = waiting ∷ [];
  audit = [];
}

rows-Remembered : RevokesRemembered rows
rows-Remembered = (λ s. refl, tt)

runs_remember_revokes_example : RevokesRemembered (claim_job 300_000 500 rows).1
runs_remember_revokes_example =
    runs_remember_revokes (λ s. s) (λ s. s) (λ r. none) (claim_job 300_000 500 rows).1
      (then_step begin (claim 300_000 500)) rows-Remembered

next_job-IsNext_example : IsNext 300_000 500 (waiting ∷ []) (next_job 300_000 500 (waiting ∷ []))
next_job-IsNext_example = next_job-IsNext 300_000 500 (waiting ∷ [])

abbrev claimed : Job
claimed = record waiting { status = processing; attempts = 1; locked_at = some 500 }

is_claimed : (claim_job 300_000 500 rows).0 ≡ some claimed
unfolding claim_job is_claimable
is_claimed = refl

claim_job-exclusive_example :
    All
      (λ j. j.id ≡ claimed.id → is_claimable 300_000 300_499 j ≡ false)
      (claim_job 300_000 500 rows).1.jobs
claim_job-exclusive_example =
    claim_job-exclusive 300_000 500 300_499 rows claimed is_claimed (omega arith)

purge_offboarded_users-live_example :
    keep (λ k. is_live k.state) (purge_offboarded_users 900 rows).keys
    ≡ keep (λ k. is_live k.state) rows.keys
purge_offboarded_users-live_example = purge_offboarded_users-live 900 rows

abbrev sync_row : Job
sync_row = record waiting {
  type = access_sync;
  dedup = singleton access_sync;
  key_id = none;
  arm_id = some 20;
  node_id = none;
  image = none;
  max_peers = none;
  status = processing;
}

settle-rearm_example :
    ((settle 20 900 sync_row).status ≡ completed)
    × ((settle 20 900 (rearm 21 10_500 sync_row)).status ≡ pending)
    × ((settle 20 900 (rearm 21 10_500 sync_row)).available_at ≡ 900)
    × ((settle 20 900 (rearm 21 10_500 sync_row)).arm_id ≡ some 21)
settle-rearm_example = settle-rearm 20 21 10_500 900 sync_row refl refl (omega arith)

abbrev server : Server
server = record {
  id = 2;
  name = "nl";
  public_name = none;
  enabled = true;
  protocol = awg3;
  capabilities = (λ p. false);
  enabled_protocols = none;
  max_peers = 10;
}

abbrev obstacle_of : Server → Option Obstacle
obstacle_of s = some user_quota

select_server_lem_example :
    select_server obstacle_of (server ∷ [])
    ≡ choice
        (first (λ s. is_clear (obstacle_of s)) (server ∷ []))
        (refusal (meets obstacle_of (server ∷ [])))
select_server_lem_example = select_server_lem obstacle_of (server ∷ [])

abbrev quota : QuotaContext
quota = record { default_key_limit = 5; key_limit_override = none; node_key_limits = none }

abbrev policy : Policy
policy = record {
  allow_key_creation = true;
  allow_route_profile_selection = true;
  allow_node_selection = false;
  allowed_node_ids = none;
  allowed_protocols = awg3 ∷ [];
  key_limit_mode = per_node;
}

abbrev request : KeyRequest
request = record {
  node_id = 2;
  protocol = awg3;
  route_profile = full_tunnel;
  device_label = "laptop";
}

abbrev create : Db → Answer Db
create db =
    create_key (λ a b. same) (λ r. none) (λ id s. "ap_y") [] (server ∷ []) quota policy
      (λ n. 50 + n) 900 1 request db

abbrev created : Db
created = committed (create rows) rows

is_created : create rows ≡ ok created
unfolding create_key obstacle counts_for_quota
is_created = refl

create_key-bounds_example :
    (s : Server) × (first
        (λ t. is_clear (obstacle quota policy request 1 rows.keys t))
        (candidates
          (λ a b. same)
          (λ r. none)
          (λ id s. "ap_y")
          []
          (server ∷ [])
          quota
          policy
          (λ n. 50 + n)
          900
          1
          request)
      ≡ some s)
    × IsCreatedOn 1 s rows created
    × (count (hosted s.id) created.keys ≤ s.max_peers)
    × IsWithinQuota quota per_node 1 created.keys s
create_key-bounds_example =
    create_key-bounds (λ a b. same) (λ r. none) (λ id s. "ap_y") [] (server ∷ []) quota policy
      (λ n. 50 + n) 900 1 request rows created is_created

abbrev far : Server
far = record server { id = 1; name = "us" }

order_nodes_for_users-IsAscending_example :
    IsAscending
      (λ a b. same)
      (2 ∷ [])
      (order_nodes_for_users (λ a b. same) (2 ∷ []) (far ∷ server ∷ []))
    × (length
          (keep (λ s. s.enabled) (order_nodes_for_users (λ a b. same) (2 ∷ []) (far ∷ server ∷ [])))
        ≡ length (keep (λ (s : Server). s.enabled) (far ∷ server ∷ [])))
order_nodes_for_users-IsAscending_example =
    order_nodes_for_users-IsAscending (λ a b. same) (2 ∷ []) (λ a b. refl) (λ s. s.enabled)
      (far ∷ server ∷ [])

abbrev boss : User
boss = record owner { id = 9; email = "b@example.org"; role = admin }

abbrev staff : Db
staff = record rows { users = owner ∷ boss ∷ [] }

staff-HaveOtherIds : HaveOtherIds staff.users staff.users
staff-HaveOtherIds =
    (λ n. (λ a. absurd (ground arith), (λ a. refl, tt)), (λ n. absurd (ground arith), tt))

reconcile_access-admins_example :
    (admins
        (reconcile_access (λ e. e) (λ e. e) (λ u n. n) 900 ("c@example.org" ∷ []) staff).db.users
      ≡ admins staff.users)
    × (admins
          (deactivate_by_email
            (λ e. e)
            (λ e. e)
            (λ u n. n)
            900
            ("c@example.org" ∷ [])
            staff).db.users
        ≡ admins staff.users)
reconcile_access-admins_example =
    reconcile_access-admins (λ e. e) (λ e. e) (λ u n. n) 900 ("c@example.org" ∷ []) staff
      staff-HaveOtherIds
