-- ===== src/Processor/Reached.antt =====
-- What each handler but that of the Access sync does to the panel's rows is a run of the system's steps.
use mathlib.Core.Path.{subst}
use amnezia_shared_panel.Base.{
  ℕ, ◌≡◌, refl, sym, Bool, true, false, not, ◌&&◌, List, [], ◌∷◌, Option, none, some, String,
  Bool-cases, inl, inr, arith, All, any, first, first-passes, ◌==◌, leb,
}
use amnezia_shared_panel.Panel.{
  Db, Key, Job, Reason, RouteProfile, JobType, provision, rotate, revoke, disable, enable,
  rules_refresh, access_sync, reconcile, agent_update, set_capacity, other, same_type,
}
use amnezia_shared_panel.Panel.Rows.{All-imp}
use amnezia_shared_panel.Panel.Outbox.{complete_job}
use amnezia_shared_panel.Panel.Revokes.{IsOtherJob, IsJobOf}
use amnezia_shared_panel.Panel.Steps.{
  Run, then_step, complete, fail, complete_for_gone_key, complete_for_provision,
  complete_for_lifecycle, complete_for_node,
}
use amnezia_shared_panel.Processor.{Client, Reply, answers, fails, Agent, load_key_context}
use amnezia_shared_panel.Processor.Rows.{
  provision_key-rows, rotate_peer-rows, revoke_key-rows, switch_key-rows,
}
use amnezia_shared_panel.Processor.Jobs.{
  Config, key_branch, loaded, handle_key_job, handle_refresh, refreshed, observed, handle_reconcile,
  asked, handle_agent_update, handle_set_capacity, node_exists,
}

-- Every row of the outbox with this id is a job of this type and key.
abbrev pub IsRowOf : ℕ → JobType → Option ℕ → List Job → Type 0
IsRowOf job_id type key_id jobs =
    All (λ j. j.id ≡ job_id → (j.type ≡ type) × (j.key_id ≡ key_id)) jobs

-- The foreign key of a key's node.
abbrev pub HaveNodes : Db → Type 0
HaveNodes db = All (λ k. any (λ n. n.id == k.node_id) db.nodes ≡ true) db.keys

pub row-IsOtherJob :
    (job_id : ℕ) (type : JobType) (key_id : Option ℕ) (db : Db)
    → same_type type revoke ≡ false
    → IsRowOf job_id type key_id db.jobs
    → IsOtherJob job_id db
row-IsOtherJob job_id type key_id db no_revoke row =
    All-imp (λ j. j.id ≡ job_id → (j.type ≡ type) × (j.key_id ≡ key_id))
      (λ j. j.id ≡ job_id → same_type j.type revoke ≡ false) db.jobs
      (λ j old s. subst (λ t. same_type t revoke ≡ false) (sym (old s).0) no_revoke) row

row-IsJobOf :
    (job_id : ℕ) (type : JobType) (key_id : ℕ) (db : Db)
    → IsRowOf job_id type (some key_id) db.jobs
    → IsJobOf job_id key_id db
row-IsJobOf job_id type key_id db row =
    All-imp (λ j. j.id ≡ job_id → (j.type ≡ type) × (j.key_id ≡ some key_id))
      (λ j. j.id ≡ job_id → j.key_id ≡ some key_id) db.jobs (λ j old s. (old s).1) row

-- With its node there, a key that is not found does not exist.
gone :
    (key_id : ℕ) (has_node : Key → Bool) (keys : List Key)
    → All (λ k. has_node k ≡ true) keys
    → first (λ k. k.id == key_id && has_node k) keys ≡ none
    → any (λ k. k.id == key_id) keys ≡ false
gone key_id has_node [] h e = refl
gone key_id has_node (k ∷ ks) (h, hs) e = ground (arith, h, e, gone key_id has_node ks hs)

module _ {N : Type 0} (agent : Agent N) (config : Config) (active_rule : RouteProfile → Option ℕ)
    (now : ℕ) (start : Db) where
  abbrev Reached : Db → Type 0
  Reached db = Run config.lower config.trim active_rule start db

  module _ (job_id : ℕ) (db : Db) (run : Reached db) where
    ended-Run : IsOtherJob job_id db → Reached (complete_job now job_id db)
    ended-Run o = then_step run (complete now job_id o)

    branch-Run :
        (type : JobType) (key : Key) (n : N)
        → IsRowOf job_id type (some key.id) db.jobs
        → Reached (key_branch agent config now type job_id key db n).rows
    branch-Run provision key n row =
        let o = row-IsOtherJob job_id provision (some key.id) db refl row in
        provision_key-rows agent now Reached job_id key db run (ended-Run o)
          (λ public_key. then_step run (complete_for_provision now job_id key.id public_key o)) n
    branch-Run rotate key n row =
        let o = row-IsOtherJob job_id rotate (some key.id) db refl row in
        rotate_peer-rows agent now Reached job_id key db run (ended-Run o)
          (λ public_key. then_step run (complete_for_provision now job_id key.id public_key o)) n
    branch-Run revoke key n row =
        let o = row-IsJobOf job_id revoke key.id db row in
        revoke_key-rows agent now Reached job_id key db run
          (λ state s. then_step run (complete_for_lifecycle now job_id key.id state o s)) n
    branch-Run disable key n row =
        let o = row-IsJobOf job_id disable key.id db row in
        switch_key-rows agent now Reached job_id key db run
          (λ state s. then_step run (complete_for_lifecycle now job_id key.id state o s)) false n
    branch-Run enable key n row =
        let o = row-IsJobOf job_id enable key.id db row in
        switch_key-rows agent now Reached job_id key db run
          (λ state s. then_step run (complete_for_lifecycle now job_id key.id state o s)) true n
    branch-Run rules_refresh key n row =
        ended-Run (row-IsOtherJob job_id rules_refresh (some key.id) db refl row)
    branch-Run access_sync key n row =
        ended-Run (row-IsOtherJob job_id access_sync (some key.id) db refl row)
    branch-Run reconcile key n row =
        ended-Run (row-IsOtherJob job_id reconcile (some key.id) db refl row)
    branch-Run agent_update key n row =
        ended-Run (row-IsOtherJob job_id agent_update (some key.id) db refl row)
    branch-Run set_capacity key n row =
        ended-Run (row-IsOtherJob job_id set_capacity (some key.id) db refl row)
    branch-Run other key n row = ended-Run (row-IsOtherJob job_id other (some key.id) db refl row)

    loaded-Run :
        (type : JobType) (key_id : ℕ) (found : Option Key) (n : N)
        → load_key_context key_id db ≡ found
        → HaveNodes db
        → IsRowOf job_id type (some key_id) db.jobs
        → Reached (loaded agent config now type job_id found db n).rows
    unfolding load_key_context
    loaded-Run type key_id none n e nodes row = then_step run (
        complete_for_gone_key now job_id key_id (row-IsJobOf job_id type key_id db row)
          (gone key_id (λ k. any (λ n. n.id == k.node_id) db.nodes) db.keys nodes e))
    loaded-Run type key_id (some key) n e nodes row =
        let passes =
          first-passes (λ k. k.id == key_id && any (λ n. n.id == k.node_id) db.nodes) db.keys key
            e in
        let same : key_id ≡ key.id = ground (arith, passes) in
        branch-Run type key n (subst (λ i. IsRowOf job_id type (some i) db.jobs) same row)

    pub key_job-Run :
        (type : JobType) (key_id : Option ℕ) (n : N)
        → HaveNodes db
        → IsRowOf job_id type key_id db.jobs
        → Reached (handle_key_job agent config now type job_id key_id db n).rows
    unfolding handle_key_job
    key_job-Run type none n nodes row = run
    key_job-Run type (some key_id) n nodes row =
        loaded-Run type key_id (load_key_context key_id db) n refl nodes row

    refreshed-Run :
        (failed : List Reason) (n : N)
        → IsOtherJob job_id db
        → Reached (refreshed agent config now failed job_id db n).rows
    refreshed-Run [] n o = ended-Run o
    refreshed-Run (r ∷ rs) n o = run

    pub refresh-Run :
        (feeds : List (Option Reason)) (n : N)
        → IsOtherJob job_id db
        → Reached (handle_refresh agent config now feeds job_id db n).rows
    unfolding handle_refresh
    refresh-Run [] n o = then_step run (fail job_id _)
    refresh-Run (feed ∷ feeds) n o = refreshed-Run _ n o

    observed-Run :
        (node_id : ℕ) (r : Reply (List Client) × N)
        → IsOtherJob job_id db
        → Reached (observed agent config now job_id node_id db r).rows
    observed-Run node_id (fails reason, n) o = run
    observed-Run node_id (answers clients, n) o =
        then_step run (complete_for_node _ _ now job_id node_id o)

    pub reconcile-Run :
        (node_id : Option ℕ) (n : N)
        → IsOtherJob job_id db
        → Reached (handle_reconcile agent config now job_id node_id db n).rows
    unfolding handle_reconcile
    reconcile-Run none n o = run
    reconcile-Run (some node_id) n o = elim (Bool-cases (node_exists agent config now node_id db)) [
      | inl e ↦ rw (e, handle_reconcile) (observed-Run node_id (agent.list_clients node_id n) o)
      | inr e ↦ rw (e, handle_reconcile) (then_step run (fail job_id _))
    ]

    asked-Run :
        (after : Db) (e : Option Reason × N)
        → Reached after
        → Reached (asked agent config now after db e).rows
    asked-Run after (some error, n) h = run
    asked-Run after (none, n) h = h

    pub agent_update-Run :
        (node_id : Option ℕ) (image : Option String) (n : N)
        → IsOtherJob job_id db
        → Reached (handle_agent_update agent config now job_id node_id image db n).rows
    unfolding handle_agent_update
    agent_update-Run none image n o = run
    agent_update-Run (some node_id) none n o = run
    agent_update-Run (some node_id) (some image) n o =
        elim (Bool-cases (node_exists agent config now node_id db)) [
          | inl e ↦
              rw (e, handle_agent_update)
                (asked-Run _ (agent.request_agent_update node_id image n)
                  (then_step run (complete_for_node _ _ now job_id node_id o)))
          | inr e ↦ rw (e, handle_agent_update) (then_step run (fail job_id _))
        ]

    pub set_capacity-Run :
        (node_id : Option ℕ) (max_peers : Option ℕ) (n : N)
        → IsOtherJob job_id db
        → Reached (handle_set_capacity agent config now job_id node_id max_peers db n).rows
    unfolding handle_set_capacity
    set_capacity-Run none max_peers n o = run
    set_capacity-Run (some node_id) none n o = run
    set_capacity-Run (some node_id) (some max_peers) n o =
        elim (Bool-cases (not (leb 1 max_peers && leb max_peers 500))) [
          | inl b ↦ rw (b, handle_set_capacity) run
          | inr b ↦ elim (Bool-cases (node_exists agent config now node_id db)) [
            | inl e ↦
                rw (b, e, handle_set_capacity)
                  (asked-Run _ (agent.request_capacity node_id max_peers n)
                    (then_step run (complete_for_node _ _ now job_id node_id o)))
            | inr e ↦ rw (b, e, handle_set_capacity) (then_step run (fail job_id _))
          ]
        ]
