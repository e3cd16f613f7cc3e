-- ===== src/Reconcile/Laws.antt =====
-- Every peer is claimed at most once, and only by a key that it belongs to.
use mathlib.Core.Path.{subst}
use amnezia_shared_panel.Base.{
  ℕ, ◌+◌, ◌≡◌, refl, ◌∙◌, Bool, true, List, [], ◌∷◌, ◌++◌, Option, none, some, if◌then◌else◌, keep,
  length, arith, Bool-cases, Option-cases, inl, inr,
}
use amnezia_shared_panel.Reconcile.{
  ManagedKey, Peer, Match, Matching, take_first, by_key, by_label, is_matched, claim_peer,
  first_pass, second_pass, match_peers,
}

-- How many peers pass a test.
abbrev pub peers_with : (Peer → Bool) → List Peer → ℕ
peers_with q ps = length (keep q ps)

abbrev pub matched_with : (Peer → Bool) → List Match → ℕ
matched_with q ms = length (keep (λ m. q m.peer) ms)

matched_with-snoc :
    (q : Peer → Bool) (ms : List Match) (m : Match)
    → matched_with q (ms ++ m ∷ []) ≡ matched_with q ms + (if q m.peer then 1 else 0)
matched_with-snoc q [] m = ground arith
matched_with-snoc q (x ∷ xs) m = ground (arith, matched_with-snoc q xs m)

abbrev IsTaken : (Peer → Bool) → (Peer → Bool) → List Peer → Option (Peer × List Peer) → Type 0
IsTaken q p xs none = Unit
IsTaken q p xs (some (y, ys)) =
    (p y ≡ true) × (peers_with q xs ≡ (if q y then 1 else 0) + peers_with q ys)

take_first-IsTaken : (q p : Peer → Bool) (xs : List Peer) → IsTaken q p xs (take_first p xs)
unfolding take_first
take_first-IsTaken q p [] = tt
take_first-IsTaken q p (x ∷ xs) = elim (Bool-cases (p x)) [
  | inl e ↦ rw (e, take_first) (e, ground arith)
  | inr e ↦ elim (Option-cases (take_first p xs)) [
    | inl f ↦ rw (e, f, take_first) tt
    | inr ((y, ys), f) ↦
        let before : IsTaken q p xs (some (y, ys)) =
          subst (IsTaken q p xs) f (take_first-IsTaken q p xs) in
        rw (e, f, take_first) (before.0, ground (arith, before.1))
  ]
]

-- The peers that pass a test, matched or not.
abbrev total : (Peer → Bool) → Matching → ℕ
total q m = matched_with q m.matched + peers_with q m.unmatched

claim_peer-total :
    (q p : Peer → Bool) (k : ManagedKey) (m : Matching) → total q (claim_peer p k m) ≡ total q m
unfolding claim_peer
claim_peer-total q p k m = elim (Option-cases (take_first p m.unmatched)) [
  | inl e ↦ rw (e, claim_peer) refl
  | inr ((y, ys), e) ↦
      let taken : IsTaken q p m.unmatched (some (y, ys)) =
        subst (IsTaken q p m.unmatched) e (take_first-IsTaken q p m.unmatched) in
      let more = matched_with-snoc q m.matched (record { key = k; peer = y }) in
      rw (e, claim_peer) (ground (arith, more, taken))
]

first_pass-total :
    (q : Peer → Bool) (ks : List ManagedKey) (m : Matching) → total q (first_pass ks m) ≡ total q m
unfolding first_pass
first_pass-total q [] m = refl
first_pass-total q (k ∷ ks) m =
    first_pass-total q ks (claim_peer (by_key k) k m) ∙ claim_peer-total q (by_key k) k m

second_pass-total :
    (q : Peer → Bool) (ks : List ManagedKey) (m : Matching) → total q (second_pass ks m) ≡ total q m
unfolding second_pass
second_pass-total q [] m = refl
second_pass-total q (k ∷ ks) m = elim (Bool-cases (is_matched k m.matched)) [
  | inl e ↦ rw (e, second_pass) (second_pass-total q ks m)
  | inr e ↦
      rw (e, second_pass)
        (second_pass-total q ks (claim_peer (by_label k) k m) ∙ claim_peer-total q (by_label k) k m)
]

-- The peers that a node reports are the matched ones and the orphans, each with its multiplicity:
-- no peer is claimed twice and none is lost.
pub match_peers-total :
    (q : Peer → Bool) (keys : List ManagedKey) (peers : List Peer)
    → matched_with q (match_peers keys peers).matched
        + peers_with q (match_peers keys peers).unmatched
      ≡ peers_with q peers
unfolding match_peers
match_peers-total q keys peers =
    let start : Matching = record { matched = []; unmatched = peers } in
    second_pass-total q keys (first_pass keys start) ∙ first_pass-total q keys start ∙ ground arith
