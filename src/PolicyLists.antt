-- ===== src/PolicyLists.antt =====
-- The policy's lists of node ids: apps/control-api/src/policyNodeLists.ts. A `Set` is the list of
-- its members in the order of insertion.
mod Tests
pub mod Prefix
pub mod Snapshot
pub mod Accepted
use amnezia_shared_panel.Base.{
  ℕ, ◌+◌, Bool, not, List, [], ◌∷◌, Option, none, some, if◌then◌else◌, ◌==◌, any, keep, first,
  or_else,
}

abbrev pub has : ℕ → List ℕ → Bool
has id ids = any (λ x. x == id) ids

-- `set.delete(id)`
abbrev pub delete : ℕ → List ℕ → List ℕ
delete id ids = keep (λ x. not (x == id)) ids

-- dedupeNodeIds: the first of equal ids stays in its place.
unfoldable pub dedupe_node_ids : List ℕ → List ℕ
dedupe_node_ids [] = []
dedupe_node_ids (id ∷ ids) = id ∷ delete id (dedupe_node_ids ids)

pub data Check : Type 0 where
  prefix : List ℕ → Check
  behind : ℕ → ℕ → Check
  unpositioned : ℕ → Check

-- The walk from the top of the order: the ids passed, and what is still wanted at the end.
unfoldable pub walk : List ℕ → List ℕ → List ℕ × List ℕ
walk [] wanted = ([], wanted)
walk (id ∷ ids) wanted =
    let rest = walk ids (delete id wanted) in
    if has id wanted then (id ∷ rest.0, rest.1) else ([], wanted)

-- findIndex, with what it finds.
unfoldable pub find_from : ℕ → List ℕ → List ℕ → Option (ℕ × ℕ)
find_from n wanted [] = none
find_from n wanted (id ∷ ids) = if has id wanted then some (n, id) else find_from (n + 1) wanted ids

report : List ℕ → List ℕ → ℕ → List ℕ → Check
unfolding find_from
report recommended order left lefts = elim (find_from 0 (left ∷ lefts) order) [
  | some (n, id) ↦ behind id (n + 1)
  | none ↦ unpositioned (or_else (first (λ id. has id (left ∷ lefts)) recommended) left)
]

pub verdict : List ℕ → List ℕ → List ℕ × List ℕ → Check
unfolding report
verdict recommended order (canonical, []) = prefix canonical
verdict recommended order (canonical, left ∷ lefts) = report recommended order left lefts

unfoldable pub check_recommended_prefix : List ℕ → List ℕ → Check
unfolding verdict walk dedupe_node_ids
check_recommended_prefix recommended order =
    verdict recommended order (walk order (dedupe_node_ids recommended))
