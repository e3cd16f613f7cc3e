-- ===== src/NodeOrder/Ticks.antt =====
-- A tick of the editor is about one server.
use amnezia_shared_panel.Base.{
  ℕ, suc, ◌+◌, ◌-◌, ◌≤◌, min, ◌≡◌, sym, ap, ◌∙◌, false, not, ◌&&◌, ◌||◌, List, [], ◌∷◌, ◌++◌, some,
  ◌==◌, ltb, leb, any-append, length, get_elem?, take, Bool-cases, inl, inr, arith,
}
use amnezia_shared_panel.PolicyLists.{has}
use amnezia_shared_panel.PolicyLists.Prefix.{IsDistinct}
use amnezia_shared_panel.NodeOrder.{
  index_of, remove_at, insert_at, move_from, move_node_to_index, recommended_count_from_ids,
  recommended_prefix, recommend_node, unrecommend_node,
}
use amnezia_shared_panel.NodeOrder.Moves.{index_of-get, get-lt, get-has, has-remove_at}
use amnezia_shared_panel.NodeOrder.Shown.{has-same}
use amnezia_shared_panel.NodeOrder.Cuts.{
  take-insert_at, take-remove_at, remove_at-take, length-remove_at, length-insert_at, take-next,
  get-take, take_leaves_out, take-IsDistinct, get-below,
}

-- A row that stands at or below the cut, and is moved to the cut, is the next one above it.
raised :
    (ids : List ℕ) (count id from : ℕ)
    → get_elem? ids from ≡ some id
    → count ≤ from
    → recommended_prefix (move_from ids id from count) (count + 1) ≡ take count ids ++ id ∷ []
raised ids count id from at late = elim (Bool-cases (count == from)) [
  | inl e ↦
      let same : count ≡ from = ground (arith, e) in
      let cut : min (count + 1) (length ids) ≡ suc from =
        omega (arith, same, get-lt ids from id at) in
      rw e (
        ap (λ k. take k ids) cut
        ∙ take-next from id ids at
        ∙ ap (λ k. take k ids ++ id ∷ []) (sym same))
  | inr e ↦
      let rest = remove_at from ids in
      let fewer = length-remove_at from ids (get-lt ids from id at) in
      let cut : min (count + 1) (length (insert_at count id rest)) ≡ suc count =
        omega (arith, fewer, get-lt ids from id at, length-insert_at count id rest) in
      rw e (
        ap (λ k. take k (insert_at count id rest)) cut
        ∙ (take-insert_at count id rest (omega (arith, fewer, get-lt ids from id at))).1
        ∙ ap (λ l. l ++ id ∷ []) (take-remove_at count from ids late))
]

-- A row above the cut that is moved to the end of the shorter part is the one that leaves it.
lowered :
    (ids : List ℕ) (count id from : ℕ)
    → get_elem? ids from ≡ some id
    → from ≤ count
    → suc count ≤ length ids
    → recommended_prefix (move_from ids id from count) count ≡ remove_at from (take (suc count) ids)
lowered ids count id from at early short = elim (Bool-cases (count == from)) [
  | inl e ↦
      let same : count ≡ from = ground (arith, e) in
      let cut : min count (length ids) ≡ count = omega (arith, short) in
      rw e (
        ap (λ k. take k ids) cut
        ∙ sym (take-remove_at count from ids (omega (arith, same)))
        ∙ remove_at-take count from ids early)
  | inr e ↦
      let rest = remove_at from ids in
      let fewer = length-remove_at from ids (get-lt ids from id at) in
      let cut : min count (length (insert_at count id rest)) ≡ count =
        omega (arith, fewer, short, length-insert_at count id rest) in
      rw e (
        ap (λ k. take k (insert_at count id rest)) cut
        ∙ (take-insert_at count id rest (omega (arith, fewer, short))).0
        ∙ remove_at-take count from ids early)
]

-- A move to a place within the list.
move_within :
    (ids : List ℕ) (id from target : ℕ)
    → index_of id ids ≡ some from
    → target ≤ length ids - 1
    → move_node_to_index ids id target ≡ move_from ids id from target
unfolding move_node_to_index
move_within ids id from target e h =
    rw (e, move_node_to_index) (ap (move_from ids id from) (omega (arith, h)))

module _ (ids : List ℕ) (count id from : ℕ) (e : index_of id ids ≡ some from)
    (at : get_elem? ids from ≡ some id) where
  recommend_raises :
      ltb from count ≡ false
      → (recommend_node ids count id).recommended_node_ids ≡ take count ids ++ id ∷ []
  unfolding recommend_node
  recommend_raises late =
      rw (e, late, recommend_node)
        (ap (λ l. recommended_prefix l (count + 1))
            (move_within ids id from count e (ground (arith, late, get-lt ids from id at)))
          ∙ raised ids count id from at (ground (arith, late)))

  unrecommend_lowers :
      count ≤ length ids
      → leb count from ≡ false
      → (unrecommend_node ids count id).recommended_node_ids ≡ remove_at from (take count ids)
  unfolding unrecommend_node
  unrecommend_lowers short early =
      let next : suc (count - 1) ≡ count = ground (arith, early) in
      rw (e, early, unrecommend_node)
        (ap (λ l. recommended_prefix l (count - 1))
            (move_within ids id from (count - 1) e (omega (arith, short)))
          ∙ lowered ids (count - 1) id from at (ground (arith, early)) (omega (arith, next, short))
          ∙ ap (λ k. remove_at from (take k ids)) next)

module _ (ids : List ℕ) (count id x : ℕ) (d : IsDistinct ids) (short : count ≤ length ids) where
  whole : recommended_prefix ids count ≡ take count ids
  whole = ap (λ k. take k ids) (omega (arith, short))

  ticked :
      has x (recommend_node ids count id).recommended_node_ids
      ≡ (has x (recommended_prefix ids count) || ((id == x) && has id ids))
  unfolding recommend_node
  ticked = elim (index_of-get id ids) [
    | inl (e, out) ↦ rw (e, recommend_node) (ground (arith, out))
    | inr (from, e, at, there) ↦ elim (Bool-cases (ltb from count)) [
      | inl early ↦
          let above =
            get-has (take count ids) from id
              (get-take count from id ids (ground (arith, early)) at) in
          rw (e, early, whole, recommend_node, there)
            (ground (arith, above, has-same id x (take count ids)))
      | inr late ↦
          rw (recommend_raises ids count id from e at late, whole, there)
            (ground (arith, any-append (λ y. y == x) (take count ids) (id ∷ [])))
    ]
  ]

  unticked :
      has x (unrecommend_node ids count id).recommended_node_ids
      ≡ (has x (recommended_prefix ids count) && not (id == x))
  unfolding unrecommend_node
  unticked = elim (index_of-get id ids) [
    | inl (e, out) ↦
        rw (e, unrecommend_node, whole)
          (ground (arith, take_leaves_out count id ids out, has-same id x (take count ids)))
    | inr (from, e, at, there) ↦ elim (Bool-cases (leb count from)) [
      | inl late ↦
          rw (e, late, unrecommend_node, whole)
            (ground (
              arith,
              get-below count from id ids d (ground (arith, late)) at,
              has-same id x (take count ids),
            ))
      | inr early ↦
          rw (unrecommend_lowers ids count id from e at short early, whole)
            (has-remove_at (take count ids) from id x (take-IsDistinct count ids d)
              (get-take count from id ids (ground (arith, early)) at))
    ]
  ]

count-le : (ids recommended : List ℕ) → recommended_count_from_ids ids recommended ≤ length ids
unfolding recommended_count_from_ids
count-le [] recommended = omega arith
count-le (id ∷ ids) recommended = ground (arith, count-le ids recommended)

-- Of a shown order without repetitions: ticking a row adds it to the recommended ones, unticking it
-- takes it out, and neither changes what is recommended of any other row.
pub recommend_node-has :
    (ordered recommended : List ℕ) (id x : ℕ)
    → IsDistinct ordered
    → let count = recommended_count_from_ids ordered recommended in
      (has x (recommend_node ordered count id).recommended_node_ids
        ≡ (has x (recommended_prefix ordered count) || ((id == x) && has id ordered)))
      × (has x (unrecommend_node ordered count id).recommended_node_ids
          ≡ (has x (recommended_prefix ordered count) && not (id == x)))
recommend_node-has ordered recommended id x d =
    let count = recommended_count_from_ids ordered recommended in
    let short = count-le ordered recommended in
    (ticked ordered count id x d short, unticked ordered count id x d short)
