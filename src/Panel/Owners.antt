-- ===== src/Panel/Owners.antt =====
-- What an owner may do with a key: apps/control-api/src/postgresRepository.ts. `allowed` is the
-- resolved policy's `allowSelfRevoke`; `active_rule` finds the newest active rule version of a
-- profile. A transaction that ends in an error leaves the rows as they were.
use text.Mathlib.Text.{◌==◌ as str_eq}
use amnezia_shared_panel.Base.{
  ℕ, String, Bool, not, ◌&&◌, [], ◌∷◌, Option, none, some, if◌then◌else◌, ◌==◌, any, first,
}
use amnezia_shared_panel.Keys.{KeyState, is_revocable, is_rotatable, provisioning, disabled}
use amnezia_shared_panel.Panel.{
  Db, Key, Answer, ok, err, key_not_found, policy_denied, key_disabled_by_admin,
  rotation_not_allowed, rotation_not_applicable, RouteProfile, full_tunnel, ru_blacklist, new_job,
  rotate, attempt_of, log, add_jobs, revoke_requested, rotate_requested, renamed, AuditAction,
}
use amnezia_shared_panel.Panel.Outbox.{set_keys}
use amnezia_shared_panel.Panel.Accounts.{revoke_where}

-- A key of an owner.
abbrev pub is_own : ℕ → ℕ → Key → Bool
is_own actor key_id k = k.id == key_id && k.owner_id == actor

unfoldable pub enqueue_own_revoke : (ℕ → ℕ) → ℕ → Bool → ℕ → ℕ → Db → Answer Db
unfolding revoke_where is_revocable
enqueue_own_revoke fresh now allowed actor key_id db =
    let mine = λ (k : Key). is_own actor key_id k && is_revocable k.state in
    if not allowed
    then err policy_denied
    else if any mine db.keys
    then ok (log revoke_requested key_id (revoke_where fresh now mine db))
    else err key_not_found

abbrev pub reissue : (RouteProfile → Option ℕ) → Key → Key
reissue active_rule k = record k {
  state = provisioning;
  route_rule_version_id = elim (active_rule k.route_profile) [
    | none ↦ k.route_rule_version_id
    | some v ↦ some v
  ];
}

module _ (active_rule : RouteProfile → Option ℕ) (fresh : ℕ → ℕ) (now : ℕ) where
  unfoldable pub rotate_rows : ℕ → AuditAction → Db → Db
  rotate_rows key_id action db = log action key_id (
      add_jobs (new_job (fresh 0) now rotate (attempt_of rotate key_id (fresh 1)) key_id ∷ [])
        (set_keys (λ k. k.id == key_id) (reissue active_rule) db))

  -- `state` is the row's state as the caller read it.
  unfoldable pub queue_key_rotate : ℕ → KeyState → AuditAction → Db → Answer Db
  unfolding rotate_rows is_rotatable
  queue_key_rotate key_id disabled action db = err key_disabled_by_admin
  queue_key_rotate key_id state action db =
      if is_rotatable state then ok (rotate_rows key_id action db) else err rotation_not_allowed

  unfoldable pub rotate_key : ℕ → Option Key → Db → Answer Db
  unfolding queue_key_rotate
  rotate_key key_id none db = err key_not_found
  rotate_key key_id (some k) db = elim k.route_profile [
    | full_tunnel ↦ err rotation_not_applicable
    | ru_blacklist ↦ queue_key_rotate key_id k.state rotate_requested db
  ]

  unfoldable pub enqueue_own_rotate : ℕ → ℕ → Db → Answer Db
  unfolding rotate_key
  enqueue_own_rotate actor key_id db = rotate_key key_id (first (is_own actor key_id) db.keys) db

  -- `shown` composes the display name from a row's columns and its node's. The update of the label
  -- is undone when the rotation is refused.
  abbrev pub relabel : ℕ → String → Db → Db
  relabel key_id label db =
      set_keys (λ k. k.id == key_id) (λ k. record k { device_label = label }) db

  unfoldable pub rename_key : (Key → String) → ℕ → String → Option Key → Db → Answer Db
  unfolding queue_key_rotate
  rename_key shown key_id label none db = err key_not_found
  rename_key shown key_id label (some k) db =
      if str_eq (shown k) (shown (record k { device_label = label }))
      then ok (log renamed key_id (relabel key_id label db))
      else queue_key_rotate key_id k.state renamed (relabel key_id label db)

  unfoldable pub rename_own_key : (Key → String) → ℕ → ℕ → String → Db → Answer Db
  unfolding rename_key
  rename_own_key shown actor key_id label db =
      rename_key shown key_id label (first (is_own actor key_id) db.keys) db
