-- ===== src/Keys/Sets.antt =====
-- How the state lists of the packages agree with one another.
use amnezia_shared_panel.Base.{
  ℕ, if◌then◌else◌, ◌+◌, ◌<◌, ◌≡◌, ◌↔◌, true, not, List, [], ◌∷◌, ◌++◌, arith,
}
use amnezia_shared_panel.Keys.{
  KeyState, is_revocable, is_purgeable, counts_for_quota, is_live, is_rotatable,
  is_visible_to_owner, count_quota_keys, traffic_delta,
}

-- The states a row may be deleted in are the ones with no peer left, and the ones with nothing to
-- revoke: a state is purgeable exactly when it is not live, and live exactly when it is revocable.
purgeable_iff_not_live :
    (s : KeyState) → (is_purgeable s ≡ not (is_live s)) × (is_live s ≡ is_revocable s)
unfolding is_purgeable is_live is_revocable
purgeable_iff_not_live s = ground arith

-- A key that an owner may see or rotate can still be revoked, and a key that counts for a quota
-- is visible.
pub owner_states :
    (s : KeyState)
    → (is_visible_to_owner s ≡ true → is_revocable s ≡ true)
      × (is_rotatable s ≡ true → (is_visible_to_owner s ≡ true) × (is_revocable s ≡ true))
      × (counts_for_quota s ≡ true → is_visible_to_owner s ≡ true)
unfolding is_visible_to_owner is_revocable is_rotatable counts_for_quota
owner_states s = (ground arith, ground arith, ground arith)

-- Counting quota keys splits over a concatenation.
pub count_quota_keys-append :
    (xs ys : List KeyState)
    → count_quota_keys (xs ++ ys) ≡ count_quota_keys xs + count_quota_keys ys
unfolding count_quota_keys
count_quota_keys-append [] ys = ground arith
count_quota_keys-append (x ∷ xs) ys = ground (arith, count_quota_keys-append xs ys)

-- A traffic delta is a reset exactly when the counter fell; added to the earlier reading, or to
-- zero after a reset, it gives the new reading.
traffic_delta_lem :
    (previous current : ℕ)
    → (((traffic_delta previous current).1 ≡ true) ↔ (current < previous))
      × ((if (traffic_delta previous current).1 then 0 else previous)
            + (traffic_delta previous current).0
          ≡ current)
unfolding traffic_delta
traffic_delta_lem previous current = ground arith
