-- ===== src/Panel/Fleet/Kept.antt =====
-- The invariant of requests, nodes and lists, and each call that keeps it.
use mathlib.Core.Path.{subst}
use mathlib.Core.List.{map-append}
use amnezia_shared_panel.Base.{
  ℕ, ◌≤◌, ◌≡◌, refl, sym, ap, ◌∙◌, Bool, true, false, not, ◌&&◌, List, [], ◌∷◌, ◌++◌, Option, none,
  some, ◌==◌, any, keep, All, All-append, Bool-cases, inl, inr, arith,
}
use amnezia_shared_panel.PolicyLists.{has, delete}
use amnezia_shared_panel.PolicyLists.Prefix.{IsDistinct}
use amnezia_shared_panel.Panel.{Node, AuditAction, log, update_where, is_some_of}
use amnezia_shared_panel.Panel.Rows.{All-keep_imp, All-update_where}
use amnezia_shared_panel.Panel.Fleet.{
  RequestRow, RequestStatus, is_awaiting, cancel, Member, NodeLists, Fleet, new_request,
  file_request, close_request, forget_node, scrub, drop_node,
}
use amnezia_shared_panel.Panel.Fleet.Rows.{
  open_of, request_ids, open-update, open-cancelled, open-append, request_ids-update, ids-append,
  exists-dropped, delete-append,
}

abbrev pub has_node : List Node → ℕ → Bool
has_node nodes id = any (λ n. n.id == id) nodes

abbrev pub TargetExists : List Node → Option ℕ → Type 0
TargetExists nodes none = Unit
TargetExists nodes (some n) = has_node nodes n ≡ true

abbrev pub HasTarget : List Node → RequestRow → Type 0
HasTarget nodes r = is_awaiting r.status ≡ true → TargetExists nodes r.node_id

abbrev pub AreInOrder : List Node → NodeLists → Type 0
AreInOrder nodes l =
    ((rest : List ℕ) × (l.recommended ++ rest ≡ l.order))
    × All (λ id. has_node nodes id ≡ true) l.order

abbrev pub ListsAreKept : List Node → Option NodeLists → Type 0
ListsAreKept nodes none = Unit
ListsAreKept nodes (some l) = AreInOrder nodes l

-- What the calls keep.
pub record IsKept (f : Fleet) : Type 0 where
  -- A user has one open request at most.
  pub one_open : (u : ℕ) → open_of u f.requests ≤ 1
  -- The node that an open request names exists.
  pub targets : All (HasTarget f.db.nodes) f.requests
  -- The recommended nodes are the first ones of the order, and all of its nodes exist.
  pub in_order : ListsAreKept f.db.nodes f.lists
  -- Each key's node exists.
  pub hosted : All (λ k. has_node f.db.nodes k.node_id ≡ true) f.db.keys
  pub ids : IsDistinct (request_ids f.requests)

abbrev ends : RequestStatus → ℕ → RequestRow → RequestRow
ends status actor r = record r { status = status; reviewed_by = some actor }

module _ (nodes : List Node) (id : ℕ) where
  -- A request that stays open names another node.
  abbrev NamesAnother : RequestRow → Type 0
  NamesAnother r = HasTarget nodes r × ((is_some_of r.node_id id && is_awaiting r.status) ≡ false)

  still_there :
      (o : Option ℕ)
      → is_some_of o id ≡ false
      → TargetExists nodes o
      → TargetExists (keep (λ m. not (m.id == id)) nodes) o
  still_there none e h = tt
  still_there (some n) e h = exists-dropped id n nodes h e

  pub forget_node-HasTarget :
      (rs : List RequestRow)
      → All (HasTarget nodes) rs
      → All (HasTarget (keep (λ m. not (m.id == id)) nodes)) (forget_node id rs)
  forget_node-HasTarget rs h =
      All-update_where NamesAnother (HasTarget (keep (λ m. not (m.id == id)) nodes))
        (λ r. is_some_of r.node_id id) (λ r. record r { node_id = none })
        (update_where (λ r. is_some_of r.node_id id && is_awaiting r.status) cancel rs)
        (λ r e h _. tt) (λ r e (h, other) waits. still_there r.node_id e (h waits))
        (All-update_where (HasTarget nodes) NamesAnother
          (λ r. is_some_of r.node_id id && is_awaiting r.status) cancel rs
          (λ r e h. ((λ waits. absurd (ground (arith, waits))), ground arith)) (λ r e h. (h, e)) h)

  in_order_left :
      (l : Option NodeLists)
      → ListsAreKept nodes l
      → ListsAreKept (keep (λ m. not (m.id == id)) nodes) (scrub id l)
  in_order_left none h = tt
  in_order_left (some l) ((rest, e), exist) = (
    (delete id rest, sym (delete-append id l.recommended rest) ∙ ap (delete id) e),
    All-keep_imp (λ n. has_node nodes n ≡ true)
        (λ n. has_node (keep (λ m. not (m.id == id)) nodes) n ≡ true) (λ n. not (n == id)) l.order
        (λ n other there. exists-dropped id n nodes there (ground (arith, other))) exist,
  )

-- Each call, as far as it succeeds.
module _ (f : Fleet) (kept : IsKept f) where
  pub closed :
      (status : RequestStatus) (actor id : ℕ) (action : AuditAction) (members : List Member)
      → is_awaiting status ≡ false
      → IsKept
          (close_request status actor id (record f { db = log action id f.db; members = members }))
  closed status actor id action members ended = record {
    one_open = λ u.
        let fewer =
          open-update u (λ r. r.id == id) (ends status actor) f.requests
            (λ r waits. absurd (ground (arith, waits, ended))) in
        omega (arith, fewer, kept.one_open u);
    targets =
        All-update_where (HasTarget f.db.nodes) (HasTarget f.db.nodes) (λ r. r.id == id)
          (ends status actor) f.requests (λ r e h waits. absurd (ground (arith, waits, ended)))
          (λ r e h. h) kept.targets;
    in_order = kept.in_order;
    hosted = kept.hosted;
    ids =
        subst IsDistinct
          (sym (request_ids-update (λ r. r.id == id) (ends status actor) f.requests (λ r. refl)))
          kept.ids;
  }

  pub filed :
      (fresh actor limit : ℕ) (target : Option ℕ)
      → has fresh (request_ids f.requests) ≡ false
      → TargetExists f.db.nodes target
      → IsKept (file_request fresh actor limit target f)
  filed fresh actor limit target new there =
      let mine = λ (r : RequestRow). r.user_id == actor && is_awaiting r.status in
      let ended = update_where mine cancel f.requests in
      let last = new_request fresh actor limit target in
      let sum = λ (u : ℕ). open-append u ended last in
      record {
        one_open = λ u. elim (Bool-cases (actor == u)) [
          | inl e ↦
              let same : actor ≡ u = ground (arith, e) in
              let none_left =
                subst (λ v. open_of v ended ≡ 0) same (open-cancelled actor f.requests) in
              ground (arith, sum u, none_left, e)
          | inr e ↦
              let fewer =
                open-update u mine cancel f.requests (λ r waits. absurd (ground (arith, waits))) in
              ground (arith, sum u, fewer, kept.one_open u, e)
        ];
        targets =
            All-append (HasTarget f.db.nodes) ended _
              (All-update_where (HasTarget f.db.nodes) (HasTarget f.db.nodes) mine cancel f.requests
                (λ r e h waits. absurd (ground (arith, waits))) (λ r e h. h) kept.targets)
              ((λ _. there), tt);
        in_order = kept.in_order;
        hosted = kept.hosted;
        ids =
            subst IsDistinct
              (sym (
                map-append (λ r. r.id) ended (last ∷ [])
                ∙ ap (λ l. l ++ fresh ∷ [])
                    (request_ids-update mine cancel f.requests (λ r. refl))))
              (ids-append (request_ids f.requests) fresh kept.ids new);
      }

  pub stored : (l : NodeLists) → AreInOrder f.db.nodes l → IsKept (record f { lists = some l })
  stored l h = record {
    one_open = kept.one_open;
    targets = kept.targets;
    in_order = h;
    hosted = kept.hosted;
    ids = kept.ids;
  }

  pub dropped : (id : ℕ) → IsKept (drop_node id f)
  dropped id = record {
    one_open = λ u.
        let before =
          update_where (λ r. is_some_of r.node_id id && is_awaiting r.status) cancel f.requests in
        let fewer =
          open-update u (λ r. is_some_of r.node_id id && is_awaiting r.status) cancel f.requests
            (λ r waits. absurd (ground (arith, waits))) in
        let as_many =
          open-update u (λ r. is_some_of r.node_id id) (λ r. record r { node_id = none }) before
            (λ r waits. waits) in
        omega (arith, fewer, as_many, kept.one_open u);
    targets = forget_node-HasTarget f.db.nodes id f.requests kept.targets;
    in_order = in_order_left f.db.nodes id f.lists kept.in_order;
    hosted =
        All-keep_imp (λ k. has_node f.db.nodes k.node_id ≡ true)
          (λ k. has_node (keep (λ m. not (m.id == id)) f.db.nodes) k.node_id ≡ true)
          (λ k. not (k.node_id == id)) f.db.keys
          (λ k other there. exists-dropped id k.node_id f.db.nodes there (ground (arith, other)))
          kept.hosted;
    ids =
        let before =
          update_where (λ r. is_some_of r.node_id id && is_awaiting r.status) cancel f.requests in
        subst IsDistinct
          (sym (
            request_ids-update (λ r. is_some_of r.node_id id) (λ r. record r { node_id = none })
              before (λ r. refl)
            ∙ request_ids-update (λ r. is_some_of r.node_id id && is_awaiting r.status) cancel
                f.requests (λ r. refl)))
          kept.ids;
  }
