-- ===== src/PolicyLists/Snapshot.antt =====
-- The check of the stored lists that `policy` of the command line prints: `checkRecommendedPrefix`
-- of apps/cli/src/args.ts.
pub mod Among
pub mod Agreed
use amnezia_shared_panel.Base.{ℕ, not, ◌&&◌, List, Option, none, some, first, length, take}
use amnezia_shared_panel.PolicyLists.{has}

pub data PrefixReason : Type 0 where
  unpositioned_id behind_id : PrefixReason

pub data Snapshot : Type 0 where
  in_prefix : Snapshot
  offender : ℕ → PrefixReason → Snapshot

abbrev pub top_of : List ℕ → List ℕ → List ℕ
top_of recommended order = take (length recommended) order

-- The second loop: recommended ids that the order does not have.
abbrev pub find_unpositioned : List ℕ → List ℕ → Snapshot
find_unpositioned recommended order = elim (first (λ id. not (has id order)) recommended) [
  | none ↦ in_prefix
  | some id ↦ offender id unpositioned_id
]

unfoldable pub check_stored_prefix : List ℕ → List ℕ → Snapshot
check_stored_prefix recommended order =
    elim (first (λ id. has id recommended && not (has id (top_of recommended order))) order) [
      | none ↦ find_unpositioned recommended order
      | some id ↦ offender id behind_id
    ]
