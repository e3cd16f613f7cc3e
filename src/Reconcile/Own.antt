-- ===== src/Reconcile/Own.antt =====
-- Whose peer is whose: the public key wins over the label.
use mathlib.Core.Path.{subst}
use text.Mathlib.Text.{◌==◌ as str_eq}
use amnezia_shared_panel.Base.{
  ◌≡◌, ◌≢◌, sym, ap, Bool, true, false, List, [], ◌∷◌, ◌++◌, Option, none, some, String, any-append,
  ◌==◌, eq_iff, eq_refl, ◌⊎◌, arith, All, All-append, Bool-cases, Option-cases, inl, inr,
}
use amnezia_shared_panel.Panel.Rows.{All-imp}
use amnezia_shared_panel.Reconcile.{
  ManagedKey, Peer, Match, Matching, take_first, by_key, by_label, is_matched, claim_peer,
  first_pass, second_pass, match_peers,
}

abbrev pub HasKey : ManagedKey → Peer → Type 0
HasKey k p = k.public_key ≡ some p.id

-- None of the peers has the key's public key.
abbrev pub NoneHasKey : ManagedKey → List Peer → Type 0
NoneHasKey k ps = All (λ p. k.public_key ≢ some p.id) ps

-- A match by the public key, or by the label if none of the peers that are left has the public key.
abbrev pub IsOwn : List Peer → Match → Type 0
IsOwn left m =
    HasKey m.key m.peer ⊎ ((m.peer.node_label ≡ m.key.node_label) × NoneHasKey m.key left)

abbrev equals : Option String → String → Bool
equals o id = elim o [ none ↦ false | some key ↦ str_eq id key ]

equals-some : (o : Option String) (id : String) → equals o id ≡ true → o ≡ some id
equals-some none id h = absurd (ground (arith, h))
equals-some (some key) id h = ap some (sym ((eq_iff id key).0 h))

equals-none : (o : Option String) (id : String) → equals o id ≡ false → o ≢ some id
equals-none o id h e =
    let matched_before : equals o id ≡ true =
      subst (λ x. equals x id ≡ true) (sym e) (eq_refl id) in
    ground (arith, h, matched_before)

module _ (P : Peer → Type 0) (p : Peer → Bool) where
  -- What holds of each peer holds of the one taken and of those left.
  abbrev Parts : List Peer → Option (Peer × List Peer) → Type 0
  Parts xs none = All (λ x. p x ≡ false) xs
  Parts xs (some (y, ys)) = (p y ≡ true) × (All P xs → All P ys)

  take_first-Parts : (xs : List Peer) → Parts xs (take_first p xs)
  unfolding take_first
  take_first-Parts [] = tt
  take_first-Parts (x ∷ xs) = elim (Bool-cases (p x)) [
    | inl e ↦ rw (e, take_first) (e, λ h. h.1)
    | inr e ↦ elim (Option-cases (take_first p xs)) [
      | inl f ↦
          let before : Parts xs none = subst (Parts xs) f (take_first-Parts xs) in
          rw (e, f, take_first) (e, before)
      | inr ((y, ys), f) ↦
          let before : Parts xs (some (y, ys)) = subst (Parts xs) f (take_first-Parts xs) in
          rw (e, f, take_first) (before.0, λ h. (h.0, before.1 h.1))
    ]
  ]

  claim_peer-left :
      (k : ManagedKey) (m : Matching) → All P m.unmatched → All P (claim_peer p k m).unmatched
  unfolding claim_peer
  claim_peer-left k m h = elim (Option-cases (take_first p m.unmatched)) [
    | inl e ↦ rw (e, claim_peer) h
    | inr ((y, ys), e) ↦
        let taken : Parts m.unmatched (some (y, ys)) =
          subst (Parts m.unmatched) e (take_first-Parts m.unmatched) in
        rw (e, claim_peer) (taken.1 h)
  ]

-- A key that is matched, or has its public key on none of the peers that are left.
abbrev IsSettled : Matching → ManagedKey → Type 0
IsSettled m k = (is_matched k m.matched ≡ true) ⊎ NoneHasKey k m.unmatched

claim_peer-keeps :
    (p : Peer → Bool) (k j : ManagedKey) (m : Matching)
    → IsSettled m j
    → IsSettled (claim_peer p k m) j
unfolding claim_peer
claim_peer-keeps p k j m (inr h) = inr (claim_peer-left (λ x. j.public_key ≢ some x.id) p k m h)
claim_peer-keeps p k j m (inl h) = elim (Option-cases (take_first p m.unmatched)) [
  | inl e ↦ rw (e, claim_peer) (inl h)
  | inr ((y, ys), e) ↦
      rw (e, claim_peer)
        (inl (
          ground (
            arith,
            h,
            any-append (λ x. x.key.key_id == j.key_id) m.matched
                (record { key = k; peer = y } ∷ []),
          )))
]

claim_peer-settles : (k : ManagedKey) (m : Matching) → IsSettled (claim_peer (by_key k) k m) k
unfolding claim_peer
claim_peer-settles k m = elim (Option-cases (take_first (by_key k) m.unmatched)) [
  | inl e ↦
      let left : Parts (λ x. Unit) (by_key k) m.unmatched none =
        subst (Parts (λ x. Unit) (by_key k) m.unmatched) e
          (take_first-Parts (λ x. Unit) (by_key k) m.unmatched) in
      rw (e, claim_peer)
        (inr (
          All-imp (λ x. by_key k x ≡ false) (λ x. k.public_key ≢ some x.id) m.unmatched
            (λ x none_left. equals-none k.public_key x.id none_left) left))
  | inr ((y, ys), e) ↦
      rw (e, claim_peer)
        (inl (
          ground (
            arith,
            any-append (λ x. x.key.key_id == k.key_id) m.matched
                (record { key = k; peer = y } ∷ []),
          )))
]

first_pass-keeps :
    (ks : List ManagedKey) (j : ManagedKey) (m : Matching)
    → IsSettled m j
    → IsSettled (first_pass ks m) j
unfolding first_pass
first_pass-keeps [] j m h = h
first_pass-keeps (k ∷ ks) j m h =
    first_pass-keeps ks j (claim_peer (by_key k) k m) (claim_peer-keeps (by_key k) k j m h)

first_pass-settles : (ks : List ManagedKey) (m : Matching) → All (IsSettled (first_pass ks m)) ks
unfolding first_pass
first_pass-settles [] m = tt
first_pass-settles (k ∷ ks) m = (
  first_pass-keeps ks k (claim_peer (by_key k) k m) (claim_peer-settles k m),
  first_pass-settles ks (claim_peer (by_key k) k m),
)

abbrev IsByKey : Match → Type 0
IsByKey m = HasKey m.key m.peer

first_pass-IsByKey :
    (ks : List ManagedKey) (m : Matching)
    → All IsByKey m.matched
    → All IsByKey (first_pass ks m).matched
unfolding first_pass claim_peer
first_pass-IsByKey [] m h = h
first_pass-IsByKey (k ∷ ks) m h = elim (Option-cases (take_first (by_key k) m.unmatched)) [
  | inl e ↦ rw (e, first_pass, claim_peer) (first_pass-IsByKey ks m h)
  | inr ((y, ys), e) ↦
      let taken : Parts (λ x. Unit) (by_key k) m.unmatched (some (y, ys)) =
        subst (Parts (λ x. Unit) (by_key k) m.unmatched) e
          (take_first-Parts (λ x. Unit) (by_key k) m.unmatched) in
      rw (e, first_pass, claim_peer)
        (first_pass-IsByKey ks
          (record { matched = m.matched ++ record { key = k; peer = y } ∷ []; unmatched = ys })
          (All-append IsByKey m.matched (record { key = k; peer = y } ∷ []) h
            (equals-some k.public_key y.id taken.0, tt)))
]

-- Fewer peers are left.
fewer :
    (xs ys : List Peer) (ms : List Match)
    → ((P : Peer → Type 0) → All P xs → All P ys)
    → All (IsOwn xs) ms
    → All (IsOwn ys) ms
fewer xs ys ms shrink h =
    All-imp (IsOwn xs) (IsOwn ys) ms
      (λ m o. elim o [
        | inl key ↦ inl key
        | inr (label, none_left) ↦ inr (label, shrink (λ p. m.key.public_key ≢ some p.id) none_left)
      ])
      h

claim_peer-IsOwn :
    (k : ManagedKey) (m : Matching)
    → NoneHasKey k m.unmatched
    → All (IsOwn m.unmatched) m.matched
    → All (IsOwn (claim_peer (by_label k) k m).unmatched) (claim_peer (by_label k) k m).matched
unfolding claim_peer
claim_peer-IsOwn k m none_left h = elim (Option-cases (take_first (by_label k) m.unmatched)) [
  | inl e ↦ rw (e, claim_peer) h
  | inr ((y, ys), e) ↦
      let shrink : (P : Peer → Type 0) → All P m.unmatched → All P ys = λ P all.
        (subst (Parts P (by_label k) m.unmatched) e (take_first-Parts P (by_label k) m.unmatched)).1
          all in
      let taken : Parts (λ x. Unit) (by_label k) m.unmatched (some (y, ys)) =
        subst (Parts (λ x. Unit) (by_label k) m.unmatched) e
          (take_first-Parts (λ x. Unit) (by_label k) m.unmatched) in
      rw (e, claim_peer)
        (All-append (IsOwn ys) m.matched (record { key = k; peer = y } ∷ [])
          (fewer m.unmatched ys m.matched shrink h)
          (
            inr (
              (eq_iff y.node_label k.node_label).0 taken.0,
              shrink (λ p. k.public_key ≢ some p.id) none_left,
            ),
            tt,
          ))
]

second_pass-IsOwn :
    (ks : List ManagedKey) (m : Matching)
    → All (IsSettled m) ks
    → All (IsOwn m.unmatched) m.matched
    → All (IsOwn (second_pass ks m).unmatched) (second_pass ks m).matched
unfolding second_pass
second_pass-IsOwn [] m s h = h
second_pass-IsOwn (k ∷ ks) m (here, s) h = elim (Bool-cases (is_matched k m.matched)) [
  | inl e ↦ rw (e, second_pass) (second_pass-IsOwn ks m s h)
  | inr e ↦ elim here [
    | inl matched_before ↦ absurd (ground (arith, e, matched_before))
    | inr none_left ↦
        rw (e, second_pass)
          (second_pass-IsOwn ks (claim_peer (by_label k) k m)
            (All-imp (IsSettled m) (IsSettled (claim_peer (by_label k) k m)) ks
              (λ j. claim_peer-keeps (by_label k) k j m) s)
            (claim_peer-IsOwn k m none_left h))
  ]
]

-- A matched peer has the key's public key; or it has its label, and then none of the orphans has
-- its public key.
pub match_peers-IsOwn :
    (keys : List ManagedKey) (peers : List Peer)
    → All (IsOwn (match_peers keys peers).unmatched) (match_peers keys peers).matched
unfolding match_peers
match_peers-IsOwn keys peers =
    let start : Matching = record { matched = []; unmatched = peers } in
    let first = first_pass keys start in
    second_pass-IsOwn keys first (first_pass-settles keys start) (
      All-imp IsByKey (IsOwn first.unmatched) first.matched (λ m key. inl key)
        (first_pass-IsByKey keys start tt))
