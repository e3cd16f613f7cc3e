-- ===== src/Processor/Jobs.antt =====
-- `createJobProcessor` (apps/worker/src/processor.ts): the branches by job type. A payload that
-- its schema refuses makes the handler throw. What the feeds of a rules refresh and the texts of
-- the Access sync come to are arguments.
use amnezia_shared_panel.Base.{
  ℕ, Bool, true, false, not, ◌&&◌, List, [], ◌∷◌, ◌++◌, Option, none, some, String, if◌then◌else◌,
  ◌==◌, any, leb,
}
use amnezia_shared_panel.Panel.{
  Db, Key, Job, Reason, JobType, provision, rotate, revoke, disable, enable, rules_refresh,
  access_sync, reconcile, agent_update, set_capacity, other,
}
use amnezia_shared_panel.Panel.Outbox.{complete_job, fail_job}
use amnezia_shared_panel.Panel.Nodes.{
  complete_node_reconcile, complete_node_agent_update, complete_node_capacity_change,
}
use amnezia_shared_panel.Panel.Arm.{finish_access_sync}
use amnezia_shared_panel.Access.{World}
use amnezia_shared_panel.Access.Sync.{
  Outcome, skipped, aborted, synced, unchanged, threw, Options, access_sync_run,
}
use amnezia_shared_panel.Processor.{
  Client, Reply, answers, fails, Agent, Handled, handled, throws_with, chars, load_key_context,
}
use amnezia_shared_panel.Processor.Keys.{provision_key, rotate_peer, revoke_key, switch_key}

-- What a worker is configured with: the Access sync if it is enabled, and what it is given for a
-- run of it. `text_of` is the text of an outcome, and `feeds` is what each rule fetcher comes to:
-- its error, if it throws.
pub record Config : Type 0 where
  pub lower : String → String
  pub trim : String → String
  pub before : String → String → Bool
  pub sync_enabled : Bool
  pub options : Options
  pub fetches : Bool
  pub sends : Bool
  pub fresh : ℕ → ℕ → ℕ
  pub text_of : Outcome → Reason
  pub feeds : List (Option Reason)

module _ {N : Type 0} (agent : Agent N) (config : Config) (now : ℕ) where
  abbrev pub key_branch : JobType → ℕ → Key → Db → N → Handled Db N
  key_branch provision job_id key db n = provision_key agent now job_id key db n
  key_branch rotate job_id key db n = rotate_peer agent now job_id key db n
  key_branch revoke job_id key db n = revoke_key agent now job_id key db n
  key_branch disable job_id key db n = switch_key agent now job_id key false db n
  key_branch enable job_id key db n = switch_key agent now job_id key true db n
  key_branch _ job_id key db n = handled (complete_job now job_id db) n

  abbrev pub loaded : JobType → ℕ → Option Key → Db → N → Handled Db N
  loaded type job_id none db n = handled (complete_job now job_id db) n
  loaded type job_id (some key) db n = key_branch type job_id key db n

  abbrev bad_payload : Reason
  bad_payload = chars "Invalid job payload"

  unfoldable pub handle_key_job : JobType → ℕ → Option ℕ → Db → N → Handled Db N
  unfolding load_key_context
  handle_key_job type job_id none db n = throws_with bad_payload db n
  handle_key_job type job_id (some key_id) db n =
      loaded type job_id (load_key_context key_id db) db n

  abbrev pub failures : List (Option Reason) → List Reason
  failures [] = []
  failures (none ∷ results) = failures results
  failures (some reason ∷ results) = reason ∷ failures results

  abbrev joined_reasons : List Reason → Reason
  joined_reasons [] = []
  joined_reasons (r ∷ []) = r
  joined_reasons (r ∷ s ∷ rs) = r ++ chars "; " ++ joined_reasons (s ∷ rs)

  abbrev pub refreshed : List Reason → ℕ → Db → N → Handled Db N
  refreshed [] job_id db n = handled (complete_job now job_id db) n
  refreshed (r ∷ rs) job_id db n =
      throws_with (chars "Rule feed refresh failed: " ++ joined_reasons (r ∷ rs)) db n

  unfoldable pub handle_refresh : List (Option Reason) → ℕ → Db → N → Handled Db N
  handle_refresh [] job_id db n =
      handled
        (fail_job job_id (chars "No route-rule feeds are configured (set RULE_FEEDS on the worker)")
          db)
        n
  handle_refresh (feed ∷ feeds) job_id db n = refreshed (failures (feed ∷ feeds)) job_id db n

  abbrev pub node_exists : ℕ → Db → Bool
  node_exists node_id db = any (λ m. m.id == node_id) db.nodes

  abbrev pub observed : ℕ → ℕ → Db → Reply (List Client) × N → Handled Db N
  observed job_id node_id db (fails reason, n) = throws_with reason db n
  observed job_id node_id db (answers clients, n) =
      handled (complete_node_reconcile now job_id node_id db) n

  unfoldable pub handle_reconcile : ℕ → Option ℕ → Db → N → Handled Db N
  handle_reconcile job_id none db n = throws_with bad_payload db n
  handle_reconcile job_id (some node_id) db n =
      if node_exists node_id db
      then observed job_id node_id db (agent.list_clients node_id n)
      else handled (fail_job job_id (chars "Node reconciliation target not found") db) n

  abbrev pub asked : Db → Db → Option Reason × N → Handled Db N
  asked after db (some error, n) = throws_with error db n
  asked after db (none, n) = handled after n

  unfoldable pub handle_agent_update : ℕ → Option ℕ → Option String → Db → N → Handled Db N
  handle_agent_update job_id (some node_id) (some image) db n =
      if node_exists node_id db
      then asked (complete_node_agent_update image now job_id node_id db) db
          (agent.request_agent_update node_id image n)
      else handled (fail_job job_id (chars "Node agent update target not found") db) n
  handle_agent_update job_id _ _ db n = throws_with bad_payload db n

  unfoldable pub handle_set_capacity : ℕ → Option ℕ → Option ℕ → Db → N → Handled Db N
  handle_set_capacity job_id (some node_id) (some max_peers) db n =
      if not (leb 1 max_peers && leb max_peers 500)
      then throws_with bad_payload db n
      else if node_exists node_id db
      then asked (complete_node_capacity_change max_peers now job_id node_id db) db
          (agent.request_capacity node_id max_peers n)
      else handled (fail_job job_id (chars "Node capacity target not found") db) n
  handle_set_capacity job_id _ _ db n = throws_with bad_payload db n

  abbrev pub with_db : Db → World → World
  with_db db w = record w { db = db }

  abbrev pub finished_sync : ℕ → Option ℕ → World → N → Handled World N
  finished_sync job_id none w n =
      handled
        (with_db
          (fail_job job_id
            (chars
              "access.sync job payload is missing its arm marker (armId) — refusing to finish it")
            w.db)
          w)
        n
  finished_sync job_id (some arm_id) w n =
      handled (with_db (finish_access_sync job_id arm_id now w.db) w) n

  abbrev pub ran_sync : ℕ → Option ℕ → Outcome × World → N → Handled World N
  ran_sync job_id arm_id (threw, w) n = throws_with (config.text_of threw) w n
  ran_sync job_id arm_id (skipped, w) n =
      handled (with_db (fail_job job_id (config.text_of skipped) w.db) w) n
  ran_sync job_id arm_id (aborted, w) n =
      handled (with_db (fail_job job_id (chars "aborted: " ++ config.text_of aborted) w.db) w) n
  ran_sync job_id arm_id (synced, w) n = finished_sync job_id arm_id w n
  ran_sync job_id arm_id (unchanged, w) n = finished_sync job_id arm_id w n

  unfoldable pub handle_access_sync : ℕ → Option ℕ → World → N → Handled World N
  unfolding access_sync_run
  handle_access_sync job_id arm_id w n =
      if config.sync_enabled
      then ran_sync job_id arm_id
          (access_sync_run config.lower config.trim config.options config.before config.fresh now
            config.fetches config.sends w)
          n
      else handled
          (with_db
            (fail_job job_id
              (chars
                "Two-way Access sync is not enabled on this worker (set ACCESS_SYNC_ENABLED=true)")
              w.db)
            w)
          n

  abbrev pub in_world : World → Handled Db N → Handled World N
  in_world w h = record { error = h.error; rows = with_db h.rows w; node = h.node }

  unfoldable pub handle_type : JobType → Job → World → N → Handled World N
  unfolding handle_refresh handle_access_sync handle_reconcile handle_agent_update
      handle_set_capacity handle_key_job
  handle_type rules_refresh job w n = in_world w (handle_refresh config.feeds job.id w.db n)
  handle_type access_sync job w n = handle_access_sync job.id job.arm_id w n
  handle_type reconcile job w n = in_world w (handle_reconcile job.id job.node_id w.db n)
  handle_type agent_update job w n =
      in_world w (handle_agent_update job.id job.node_id job.image w.db n)
  handle_type set_capacity job w n =
      in_world w (handle_set_capacity job.id job.node_id job.max_peers w.db n)
  handle_type other job w n = in_world w (handled (complete_job now job.id w.db) n)
  handle_type type job w n = in_world w (handle_key_job type job.id job.key_id w.db n)

  unfoldable pub handle_job : Job → World → N → Handled World N
  unfolding handle_type
  handle_job job w n = handle_type job.type job w n
