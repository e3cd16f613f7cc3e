-- ===== src/Panel/Revokes/Creation.antt =====
-- The creation of a key, for keys that wait to be revoked.
use amnezia_shared_panel.Base.{
  ℕ, List, [], ◌∷◌, ◌++◌, Option, String, any, first, arith, All-append, ◌&&◌, ◌==◌, Option-cases,
  Bool-cases, inl, inr,
}
use amnezia_shared_panel.Quota.{QuotaContext}
use amnezia_shared_panel.Panel.{
  Db, Answer, ok, err, RouteProfile, committed, new_job, provision, provision_of,
}
use amnezia_shared_panel.Panel.Accounts.{is_enabled}
use amnezia_shared_panel.Panel.Create.{
  Server, Policy, KeyRequest, Order, obstacle, candidates, create_key, place_with, insert_key,
  fresh_key, route_rule,
}
use amnezia_shared_panel.Panel.Create.Choice.{is_clear, select_server_lem}
use amnezia_shared_panel.Panel.Revokes.{RevokesRemembered, IsRemembered, append-Remembered}

insert_key-Remembered :
    (fresh : ℕ → ℕ) (now id owner node : ℕ) (label : String) (rule : Option ℕ)
    (request : KeyRequest) (db : Db)
    → RevokesRemembered db
    → RevokesRemembered (insert_key fresh now (fresh_key id owner node label rule request) db)
unfolding insert_key
insert_key-Remembered fresh now id owner node label rule request db h =
    append-Remembered (db.keys ++ fresh_key id owner node label rule request ∷ []) db.jobs
      (new_job (fresh 1) now provision (provision_of id) id ∷ [])
      (All-append (IsRemembered db.jobs) db.keys (fresh_key id owner node label rule request ∷ []) h
        (λ s. absurd (ground arith), tt))

module _ (compare : String → String → Order) (active_rule : RouteProfile → Option ℕ)
    (label_of : ℕ → Server → String) (order : List ℕ) (servers : List Server) (quota : QuotaContext)
    (policy : Policy) (fresh : ℕ → ℕ) (now actor : ℕ) (request : KeyRequest) where
  place_with-Remembered :
      (rule : Answer (Option ℕ)) (db : Db)
      → RevokesRemembered db
      → RevokesRemembered (
          committed
            (place_with compare active_rule label_of order servers quota policy fresh now actor
              request rule db)
            db)
  unfolding place_with
  place_with-Remembered (err e) db h = h
  place_with-Remembered (ok rule) db h =
      let visited =
        candidates compare active_rule label_of order servers quota policy fresh now actor
          request in
      elim (Option-cases
        (first (λ s. is_clear (obstacle quota policy request actor db.keys s)) visited)) [
          | inl e ↦
              rw
                (
                  select_server_lem (obstacle quota policy request actor db.keys) visited,
                  e,
                  place_with,
                )
                h
          | inr (s, e) ↦
              rw
                (
                  select_server_lem (obstacle quota policy request actor db.keys) visited,
                  e,
                  place_with,
                )
                (insert_key-Remembered fresh now (fresh 0) actor s.id (label_of (fresh 0) s) rule
                  request db h)
        ]

  pub create_key-Remembered :
      (db : Db)
      → RevokesRemembered db
      → RevokesRemembered (
          committed
            (create_key compare active_rule label_of order servers quota policy fresh now actor
              request db)
            db)
  unfolding create_key
  create_key-Remembered db h =
      elim (Bool-cases (any (λ u. u.id == actor && is_enabled u.status) db.users)) [
        | inr e ↦ rw (e, create_key) h
        | inl e ↦ elim (Bool-cases policy.allow_key_creation) [
          | inr f ↦ rw (e, f, create_key) h
          | inl f ↦
              rw (e, f, create_key)
                (place_with-Remembered (route_rule policy request.route_profile active_rule) db h)
        ]
      ]
