-- ===== src/Processor/Rows.antt =====
-- The rows that the handler of a key's job may leave.
use amnezia_shared_panel.Base.{
  ℕ, ◌≢◌, Bool, true, false, List, Option, none, some, String, or_else, Bool-cases, inl, inr, arith,
}
use amnezia_shared_panel.Keys.{
  KeyState, revoked, revoking, active, disabled, same_state, provisioning,
}
use amnezia_shared_panel.Panel.{Db, Key, Reason}
use amnezia_shared_panel.Panel.Outbox.{complete_job, complete_provision, complete_lifecycle}
use amnezia_shared_panel.Processor.{Client, Reply, answers, fails, Agent, truthy}
use amnezia_shared_panel.Processor.Keys.{
  clean_up, store_config, created_peer, checked, provision_key, store_rotated, recreated, replaced,
  replace_peer, found_old, rotate_from, rotate_peer, finish_revoke, listed_clients, revoke_key,
  set_status, switch_at, switch_key, reconcile_orphan, changed_state,
}

-- Any property of rows that the transactions of a key's job have, the handler's result has.
module _ {N : Type 0} (agent : Agent N) (now : ℕ) (R : Db → Type 0) (job_id : ℕ) (key : Key)
    (db : Db) (left : R db) where
  module _ (done : R (complete_job now job_id db))
      (stored : (public_key : String)
        → R (or_else (complete_provision now job_id key.id public_key db) db)) where
    clean_up-rows :
        (reason : Reason) (e : Option Reason × N) → R (clean_up agent now reason db e).rows
    clean_up-rows reason (some error, n) = left
    clean_up-rows reason (none, n) = left

    store_config-rows :
        (after : Option Db) (n : N)
        → R (or_else after db)
        → R (store_config agent now key db after n).rows
    store_config-rows none n h =
        clean_up-rows (changed_state agent now)
          (reconcile_orphan agent now key (changed_state agent now) n)
    store_config-rows (some after) n h = h

    created_peer-rows : (r : Reply String × N) → R (created_peer agent now job_id key db r).rows
    created_peer-rows (fails reason, n) =
        clean_up-rows reason (reconcile_orphan agent now key reason n)
    created_peer-rows (answers public_key, n) =
        store_config-rows (complete_provision now job_id key.id public_key db) n (stored public_key)

    checked-rows : (e : Option Reason × N) → R (checked agent now job_id key db e).rows
    checked-rows (some error, n) = left
    checked-rows (none, n) = created_peer-rows (agent.create_client key n)

    pub provision_key-rows : (n : N) → R (provision_key agent now job_id key db n).rows
    unfolding provision_key
    provision_key-rows n = elim (Bool-cases (same_state key.state provisioning)) [
      | inl e ↦ rw (e, provision_key) (checked-rows _)
      | inr e ↦ rw (e, provision_key) done
    ]

    store_rotated-rows :
        (after : Option Db) (n : N)
        → R (or_else after db)
        → R (store_rotated agent now db after n).rows
    store_rotated-rows none n h = left
    store_rotated-rows (some after) n h = h

    recreated-rows : (r : Reply String × N) → R (recreated agent now job_id key db r).rows
    recreated-rows (fails reason, n) = left
    recreated-rows (answers public_key, n) =
        store_rotated-rows (complete_provision now job_id key.id public_key db) n
          (stored public_key)

    replaced-rows : (e : Option Reason × N) → R (replaced agent now job_id key db e).rows
    replaced-rows (some error, n) = left
    replaced-rows (none, n) = recreated-rows (agent.create_client key n)

    replace_peer-rows :
        (old : Option String) (n : N) → R (replace_peer agent now job_id key db old n).rows
    replace_peer-rows none n = replaced-rows (none, n)
    replace_peer-rows (some old) n = replaced-rows (agent.delete_client key old n)

    found_old-rows : (r : Reply (List Client) × N) → R (found_old agent now job_id key db r).rows
    found_old-rows (fails reason, n) = left
    found_old-rows (answers clients, n) = replace_peer-rows _ n

    rotate_from-rows :
        (public_key : Option String) (n : N)
        → R (rotate_from agent now job_id key db public_key n).rows
    rotate_from-rows none n = found_old-rows (agent.list_clients key.node_id n)
    rotate_from-rows (some public_key) n = replace_peer-rows (truthy (some public_key)) n

    pub rotate_peer-rows : (n : N) → R (rotate_peer agent now job_id key db n).rows
    unfolding rotate_peer
    rotate_peer-rows n = elim (Bool-cases (same_state key.state provisioning)) [
      | inl e ↦ rw (e, rotate_peer) (rotate_from-rows key.public_key n)
      | inr e ↦ rw (e, rotate_peer) done
    ]

  module _
      (entered : (state : KeyState)
        → state ≢ revoking
        → R (complete_lifecycle now job_id key.id state db)) where
    finish_revoke-rows : (e : Option Reason × N) → R (finish_revoke agent now job_id key db e).rows
    finish_revoke-rows (some error, n) = left
    finish_revoke-rows (none, n) = entered revoked (λ h. ground (arith, h))

    listed_clients-rows :
        (r : Reply (List Client) × N) → R (listed_clients agent now job_id key db r).rows
    listed_clients-rows (fails reason, n) = left
    listed_clients-rows (answers clients, n) = finish_revoke-rows _

    pub revoke_key-rows : (n : N) → R (revoke_key agent now job_id key db n).rows
    unfolding revoke_key
    revoke_key-rows n = listed_clients-rows (agent.list_clients key.node_id n)

    set_status-rows :
        (enabled : Bool) (e : Option Reason × N)
        → R (set_status agent now job_id key enabled db e).rows
    set_status-rows enabled (some error, n) = left
    set_status-rows true (none, n) = entered active (λ h. ground (arith, h))
    set_status-rows false (none, n) = entered disabled (λ h. ground (arith, h))

    switch_at-rows :
        (enabled : Bool) (public_key : Option String) (n : N)
        → R (switch_at agent now job_id key enabled db public_key n).rows
    switch_at-rows enabled none n = left
    switch_at-rows enabled (some public_key) n =
        set_status-rows enabled (agent.set_client_status key public_key enabled n)

    pub switch_key-rows :
        (enabled : Bool) (n : N) → R (switch_key agent now job_id key enabled db n).rows
    unfolding switch_key
    switch_key-rows enabled n = switch_at-rows enabled (truthy key.public_key) n
