-- ===== src/Panel/Create/Bounds.antt =====
-- A created key is within the owner's quota and the node's capacity.
use mathlib.Core.Path.{subst}
use amnezia_shared_panel.Base.{
  ℕ, ◌+◌, ◌≤◌, ◌≡◌, refl, Bool, true, List, [], ◌∷◌, ◌++◌, Option, none, some, String,
  if◌then◌else◌, any, ◌&&◌, ◌==◌, first, first-passes, arith, Option-cases, Bool-cases, inl, inr,
}
use amnezia_shared_panel.Quota.{
  Mode, per_node, global, QuotaContext, has_room_for_key, resolve_node_key_limit,
  resolve_pool_key_limit,
}
use amnezia_shared_panel.Keys.{provisioning}
use amnezia_shared_panel.Panel.{
  Db, Key, Job, provision, provision_of, new_job, Answer, ok, err, RouteProfile,
}
use amnezia_shared_panel.Panel.Create.{
  Server, Policy, KeyRequest, Order, obstacle, count, owned, owned_on, hosted, candidates,
  create_key, place_with, insert_key, fresh_key, total_of, route_rule,
}
use amnezia_shared_panel.Panel.Accounts.{is_enabled}
use amnezia_shared_panel.Panel.Create.Choice.{is_clear, select_server_lem}

count-snoc :
    (p : Key → Bool) (ks : List Key) (k : Key)
    → count p (ks ++ k ∷ []) ≡ count p ks + (if p k then 1 else 0)
count-snoc p [] k = ground arith
count-snoc p (x ∷ xs) k = ground (arith, count-snoc p xs k)

-- A server without an obstacle has room.
abbrev HasRoom : QuotaContext → Mode → ℕ → List Key → Server → Type 0
HasRoom quota per_node owner keys s =
    count (owned_on owner s.id) keys + 1 ≤ resolve_node_key_limit quota s.id
HasRoom quota global owner keys s = count (owned owner) keys + 1 ≤ resolve_pool_key_limit quota

room-HasRoom :
    (quota : QuotaContext) (mode : Mode) (owner : ℕ) (keys : List Key) (s : Server)
    → has_room_for_key quota mode s.id (record {
      keys_on_node = count (owned_on owner s.id) keys;
      keys_total = total_of mode owner keys;
    })
      ≡ true
    → HasRoom quota mode owner keys s
unfolding has_room_for_key total_of
room-HasRoom quota per_node owner keys s h = ground arith
room-HasRoom quota global owner keys s h = ground arith

clear-HasRoom :
    (quota : QuotaContext) (policy : Policy) (request : KeyRequest) (owner : ℕ) (keys : List Key)
    (s : Server)
    → obstacle quota policy request owner keys s ≡ none
    → HasRoom quota policy.key_limit_mode owner keys s
      × (count (hosted s.id) keys + 1 ≤ s.max_peers)
unfolding obstacle
clear-HasRoom quota policy request owner keys s h =
    (room-HasRoom quota policy.key_limit_mode owner keys s (ground arith), ground arith)

-- The owner's keys that count for the quota, on the node or overall, are within the limit.
abbrev pub IsWithinQuota : QuotaContext → Mode → ℕ → List Key → Server → Type 0
IsWithinQuota quota per_node owner keys s =
    count (owned_on owner s.id) keys ≤ resolve_node_key_limit quota s.id
IsWithinQuota quota global owner keys s = count (owned owner) keys ≤ resolve_pool_key_limit quota

HasRoom-insert :
    (quota : QuotaContext) (mode : Mode) (owner : ℕ) (keys : List Key) (s : Server) (k : Key)
    → HasRoom quota mode owner keys s
    → IsWithinQuota quota mode owner (keys ++ k ∷ []) s
HasRoom-insert quota per_node owner keys s k h =
    ground (arith, count-snoc (owned_on owner s.id) keys k)
HasRoom-insert quota global owner keys s k h = ground (arith, count-snoc (owned owner) keys k)

-- The rows after the creation are those before it, with one more key and its job: the key is the
-- owner's, on this server, and waits to be provisioned.
abbrev pub IsCreatedOn : ℕ → Server → Db → Db → Type 0
IsCreatedOn actor s db after =
    (k : Key) × (after.keys ≡ db.keys ++ k ∷ [])
    × (k.node_id ≡ s.id)
    × (k.owner_id ≡ actor)
    × (k.state ≡ provisioning)
    × ((j : Job) × (after.jobs ≡ db.jobs ++ j ∷ []) × (j.type ≡ provision) × (j.key_id ≡ some k.id))

module _ (compare : String → String → Order) (active_rule : RouteProfile → Option ℕ)
    (label_of : ℕ → Server → String) (order : List ℕ) (servers : List Server) (quota : QuotaContext)
    (policy : Policy) (fresh : ℕ → ℕ) (now actor : ℕ) (request : KeyRequest) where
  abbrev visited : List Server
  visited =
      candidates compare active_rule label_of order servers quota policy fresh now actor request

  abbrev tests : Db → Server → Bool
  tests db s = is_clear (obstacle quota policy request actor db.keys s)

  abbrev IsPlaced : Db → Answer Db → Type 0
  IsPlaced db (err e) = Unit
  IsPlaced db (ok after) =
      (s : Server) × (first (tests db) visited ≡ some s)
      × IsCreatedOn actor s db after
      × (count (hosted s.id) after.keys ≤ s.max_peers)
      × IsWithinQuota quota policy.key_limit_mode actor after.keys s

  placed :
      (s : Server) (rule : Option ℕ) (db : Db)
      → first (tests db) visited ≡ some s
      → IsPlaced db (
          ok (
            insert_key fresh now
              (fresh_key (fresh 0) actor s.id (label_of (fresh 0) s) rule request)
              db))
  unfolding insert_key
  placed s rule db e =
      let key = fresh_key (fresh 0) actor s.id (label_of (fresh 0) s) rule request in
      let clear : tests db s ≡ true = first-passes (tests db) visited s e in
      let room = clear-HasRoom quota policy request actor db.keys s (ground arith) in
      (
        s,
        e,
        (
          key,
          refl,
          refl,
          refl,
          refl,
          (new_job (fresh 1) now provision (provision_of key.id) key.id, refl, refl, refl),
        ),
        ground (arith, count-snoc (hosted s.id) db.keys key, room),
        HasRoom-insert quota policy.key_limit_mode actor db.keys s key (room.0),
      )

  place_with-IsPlaced :
      (rule : Answer (Option ℕ)) (db : Db)
      → IsPlaced db (
          place_with compare active_rule label_of order servers quota policy fresh now actor request
            rule db)
  unfolding place_with
  place_with-IsPlaced (err e) db = tt
  place_with-IsPlaced (ok rule) db = elim (Option-cases (first (tests db) visited)) [
    | inl e ↦
        rw (select_server_lem (obstacle quota policy request actor db.keys) visited, e, place_with)
          tt
    | inr (s, e) ↦
        rw (select_server_lem (obstacle quota policy request actor db.keys) visited, e, place_with)
          (placed s rule db e)
  ]

  create_key-IsPlaced :
      (db : Db)
      → IsPlaced db (
          create_key compare active_rule label_of order servers quota policy fresh now actor request
            db)
  unfolding create_key
  create_key-IsPlaced db =
      elim (Bool-cases (any (λ u. u.id == actor && is_enabled u.status) db.users)) [
        | inr e ↦ rw (e, create_key) tt
        | inl e ↦ elim (Bool-cases policy.allow_key_creation) [
          | inr f ↦ rw (e, f, create_key) tt
          | inl f ↦
              rw (e, f, create_key)
                (place_with-IsPlaced (route_rule policy request.route_profile active_rule) db)
        ]
      ]

  -- What is created is one key, the owner's, which waits with its job to be provisioned on the first
  -- server, in the order that users see, that is open to the user, offers the protocol and has
  -- room; then neither the node's capacity nor the owner's limit (on
  -- that node, or for all nodes together) is exceeded by the keys that count for the quota.
  pub create_key-bounds :
      (db after : Db)
      → create_key compare active_rule label_of order servers quota policy fresh now actor request
          db
        ≡ ok after
      → (s : Server) × (first (tests db) visited ≡ some s)
        × IsCreatedOn actor s db after
        × (count (hosted s.id) after.keys ≤ s.max_peers)
        × IsWithinQuota quota policy.key_limit_mode actor after.keys s
  create_key-bounds db after h = subst (IsPlaced db) h (create_key-IsPlaced db)
