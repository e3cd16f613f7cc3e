-- ===== src/Panel/Revokes/Others.antt =====
-- Renamed keys, log-ins and calls on accounts, and removed nodes, for keys that wait to be revoked.
use text.Mathlib.Text.{◌==◌ as str_eq}
use mathlib.Core.Path.{subst}
use amnezia_shared_panel.Base.{
  ℕ, ◌≡◌, refl, Bool, true, false, not, ◌&&◌, List, [], ◌∷◌, ◌++◌, leb, length, Option, none, some,
  String, any, keep, first, ◌==◌, All, arith, Bool-cases, inl, inr,
}
use amnezia_shared_panel.Panel.{
  Db, Key, Job, User, Role, Answer, ok, err, committed, RouteProfile, renamed,
}
use amnezia_shared_panel.Panel.Rows.{All-keep_imp, All-and, any-keep}
use amnezia_shared_panel.Panel.Owners.{
  is_own, relabel, rename_key, rename_own_key, queue_key_rotate,
}
use amnezia_shared_panel.Panel.Revokes.{
  RevokesRemembered, IsRemembered, is_open_revoke, set_keys-Remembered,
}
use amnezia_shared_panel.Panel.Revokes.Api.{queue_key_rotate-Remembered}
use amnezia_shared_panel.Panel.Revokes.Accounts.{arm_access_sync-Remembered, purge_each-Remembered}
use amnezia_shared_panel.Access.{normalize_email}
use amnezia_shared_panel.Panel.Accounts.{purgeable_users, purge_offboarded_users, is_admin}
use amnezia_shared_panel.Panel.Directory.{
  Directory, Allowlist, IdentityClaim, resolve_identity, log_in, log_in_by_email, identity_user,
  is_bootstrap, is_admitted, promoted, create_user, new_user, set_role, purge_users, demotes,
  is_admin_row,
}
use amnezia_shared_panel.Panel.Admin.{active_admins}
use amnezia_shared_panel.Panel.Fleet.{Fleet, is_of_keys, drop_node, delete_node, settled_fleet}

-- An answer that leaves other rows when it is an error.
undone-Remembered :
    (answer : Answer Db) (before after : Db)
    → RevokesRemembered before
    → RevokesRemembered (committed answer after)
    → RevokesRemembered (committed answer before)
undone-Remembered (ok db) before after h g = g
undone-Remembered (err e) before after h g = h

module _ (active_rule : RouteProfile → Option ℕ) (fresh : ℕ → ℕ) (now : ℕ) where
  relabel-Remembered :
      (key_id : ℕ) (label : String) (db : Db)
      → RevokesRemembered db
      → RevokesRemembered (relabel active_rule fresh now key_id label db)
  relabel-Remembered key_id label db h =
      set_keys-Remembered (λ k. k.id == key_id) (λ k. record k { device_label = label }) db
        (λ k. refl) (λ k e s. s) h

  rename_key-Remembered :
      (shown : Key → String) (key_id : ℕ) (label : String) (found : Option Key) (db : Db)
      → RevokesRemembered db
      → RevokesRemembered
          (committed (rename_key active_rule fresh now shown key_id label found db) db)
  unfolding rename_key
  rename_key-Remembered shown key_id label none db h = h
  rename_key-Remembered shown key_id label (some k) db h =
      let after = relabel active_rule fresh now key_id label db in
      let relabelled = relabel-Remembered key_id label db h in
      elim (Bool-cases (str_eq (shown k) (shown (record k { device_label = label })))) [
        | inl e ↦ rw (e, rename_key) relabelled
        | inr e ↦
            rw (e, rename_key)
              (undone-Remembered
                (queue_key_rotate active_rule fresh now key_id k.state renamed after) db after h
                (queue_key_rotate-Remembered active_rule fresh now key_id k.state renamed after
                  relabelled))
      ]

  pub rename_own_key-Remembered :
      (shown : Key → String) (actor key_id : ℕ) (label : String) (db : Db)
      → RevokesRemembered db
      → RevokesRemembered
          (committed (rename_own_key active_rule fresh now shown actor key_id label db) db)
  unfolding rename_own_key
  rename_own_key-Remembered shown actor key_id label db h =
      rename_key-Remembered shown key_id label (first (is_own actor key_id) db.keys) db h

module _ (lower trim : String → String) (options : Allowlist) where
  abbrev Remembers : Answer (User × Directory) → Type 0
  Remembers (ok r) = RevokesRemembered r.1.db
  Remembers (err e) = Unit

  promoted-Remembered :
      (fresh now : ℕ) (email : String) (u : User) (d : Directory)
      → RevokesRemembered d.db
      → RevokesRemembered (promoted lower trim options fresh now email u d).1.db
  promoted-Remembered fresh now email u d h =
      elim (Bool-cases (is_bootstrap lower trim options fresh now email && not (is_admin u.role))) [
        | inl e ↦ rw e h
        | inr e ↦ rw e h
      ]

  by_email-Remembers :
      (fresh now : ℕ) (claim : IdentityClaim) (email : String) (o : Option User) (d : Directory)
      → RevokesRemembered d.db
      → Remembers (log_in_by_email lower trim options fresh now claim email o d)
  by_email-Remembers fresh now claim email (some u) d h = promoted-Remembered fresh now email u d h
  by_email-Remembers fresh now claim email none d h =
      elim (Bool-cases (is_admitted lower trim options fresh now claim email d)) [
        | inl e ↦ rw e h
        | inr e ↦ rw e tt
      ]

  log_in-Remembers :
      (fresh now : ℕ) (claim : IdentityClaim) (email : String) (o : Option User) (d : Directory)
      → RevokesRemembered d.db
      → Remembers (log_in lower trim options fresh now claim email o d)
  log_in-Remembers fresh now claim email (some u) d h = promoted-Remembered fresh now email u _ h
  log_in-Remembers fresh now claim email none d h =
      by_email-Remembers fresh now claim email (first (λ u. str_eq u.email email) d.db.users) d h

  pub resolve_identity-Remembered :
      (fresh now : ℕ) (claim : IdentityClaim) (u : User) (d after : Directory)
      → resolve_identity lower trim options fresh now claim d ≡ ok (u, after)
      → RevokesRemembered d.db
      → RevokesRemembered after.db
  unfolding resolve_identity
  resolve_identity-Remembered fresh now claim u d after done h = subst Remembers done (
      log_in-Remembers fresh now claim (normalize_email lower trim claim.email)
        (identity_user claim d) d h)

  pub create_user-Remembered :
      (fresh now arm marker : ℕ) (address : String) (role : Role) (db : Db)
      → RevokesRemembered db
      → RevokesRemembered
          (committed (create_user lower trim options fresh now arm marker address role db) db)
  unfolding create_user
  create_user-Remembered fresh now arm marker address role db h =
      let email = normalize_email lower trim address in
      let created = new_user lower trim options fresh now email role in
      elim (Bool-cases (any (λ u. str_eq u.email email) db.users)) [
        | inl e ↦ rw (e, create_user) h
        | inr e ↦
            rw (e, create_user)
              (arm_access_sync-Remembered arm marker now
                (record db { users = db.users ++ created ∷ [] }) h)
      ]

pub set_role-Remembered :
    (id : ℕ) (role : Role) (db : Db)
    → RevokesRemembered db
    → RevokesRemembered (committed (set_role id role db) db)
unfolding set_role
set_role-Remembered id role db h =
    let last =
      demotes role
      && (is_admin_row (first (λ u. u.id == id) db.users) && leb (length (active_admins db)) 1) in
    elim (Bool-cases last) [
      | inl e ↦ rw (e, set_role) h
      | inr e ↦ elim (Bool-cases (any (λ u. u.id == id) db.users)) [
        | inl f ↦ rw (e, f, set_role) h
        | inr f ↦ rw (e, f, set_role) h
      ]
    ]

pub purge_users-Remembered :
    (confirm : Bool) (cutoff : ℕ) (db : Db)
    → RevokesRemembered db
    → RevokesRemembered (purge_users confirm cutoff db)
unfolding purge_users purge_offboarded_users
purge_users-Remembered true cutoff db h = purge_each-Remembered (purgeable_users cutoff db) db h
purge_users-Remembered false cutoff db h = h

-- No key of another node has the id of a key of this one.
abbrev pub HasOwnKeys : ℕ → Db → Type 0
HasOwnKeys node db =
    All
      (λ k.
        (k.node_id == node) ≡ false
        → any (λ x. x.id == k.id) (keep (λ x. x.node_id == node) db.keys) ≡ false)
      db.keys

is_of_keys-id :
    (key_id : ℕ) (gone : List Key) (j : Job)
    → any (λ x. x.id == key_id) gone ≡ false
    → is_open_revoke key_id j ≡ true
    → is_of_keys gone j ≡ false
is_of_keys-id key_id [] j h o = refl
is_of_keys-id key_id (x ∷ xs) j h o =
    ground (arith, is_of_keys-id key_id xs j (ground (arith, h)) o, h, o)

drop_node-Remembered :
    (node : ℕ) (f : Fleet)
    → HasOwnKeys node f.db
    → RevokesRemembered f.db
    → RevokesRemembered (drop_node node f).db
drop_node-Remembered node f own h =
    let gone = keep (λ k. k.node_id == node) f.db.keys in
    let apart : Key → Type 0 =
      λ k. (k.node_id == node) ≡ false → any (λ x. x.id == k.id) gone ≡ false in
    All-keep_imp (λ k. apart k × IsRemembered f.db.jobs k)
      (IsRemembered (keep (λ j. not (is_of_keys gone j)) f.db.jobs)) (λ k. not (k.node_id == node))
      f.db.keys
      (λ k e (other, old) s.
        any-keep (is_open_revoke k.id) (λ j. not (is_of_keys gone j)) f.db.jobs
          (λ j o. ground (arith, is_of_keys-id k.id gone j (other (ground (arith, e))) o)) (old s))
      (All-and apart (IsRemembered f.db.jobs) f.db.keys own h)

pub delete_node-Remembered :
    (node : ℕ) (delete_keys : Bool) (f : Fleet)
    → HasOwnKeys node f.db
    → RevokesRemembered f.db
    → RevokesRemembered (settled_fleet (delete_node node delete_keys f) f).db
unfolding delete_node
delete_node-Remembered node delete_keys f own h =
    elim (Bool-cases (any (λ n. n.id == node) f.db.nodes)) [
      | inr e ↦ rw (e, delete_node) h
      | inl e ↦ elim (Bool-cases (any (λ k. k.node_id == node) f.db.keys && not delete_keys)) [
        | inl keys ↦ rw (e, keys, delete_node) h
        | inr free ↦ rw (e, free, delete_node) (drop_node-Remembered node f own h)
      ]
    ]
