-- ===== src/ServiceChecks/Table.antt =====
-- What an insert leaves in the table of results, and what the rows of a poll are.
use mathlib.Core.Path.{subst}
use amnezia_shared_panel.Base.{
  ℕ, ◌≡◌, refl, Bool, true, not, List, [], ◌∷◌, map, Option, none, some, if◌then◌else◌, ◌==◌, every,
  All, first, Bool-cases, inl, inr, arith,
}
use amnezia_shared_panel.ServiceChecks.{
  ResultRow, NodeCheckResult, ServiceCheck, ChecksReply, answered, not_served, threw, is_row,
  to_result_row, insert_row, insert_rows, has_distinct_checks, is_accepted, Poll, rows_of, rows_due,
  recorded_rows, select_due_checks, checks_for_node,
}

module _ (node_id check_id : ℕ) where
  abbrev mine : ResultRow → Bool
  mine = is_row node_id check_id

  pub insert-first :
      (row : ResultRow) (table : List ResultRow)
      → first mine (insert_row row table) ≡ (if mine row then some row else first mine table)
  insert-first row [] = refl
  insert-first row (r ∷ rs) = ground (arith, insert-first row rs)

  -- A list of rows with distinct checks has no second row of a check.
  first-fresh :
      (row : ResultRow) (rows : List ResultRow)
      → every (λ r. not (r.check_id == row.check_id)) rows ≡ true
      → mine row ≡ true
      → first mine rows ≡ none
  first-fresh row [] fresh h = refl
  first-fresh row (r ∷ rs) fresh h =
      let rest : every (λ r. not (r.check_id == row.check_id)) rs ≡ true = ground (arith, fresh) in
      ground (arith, fresh, h, first-fresh row rs rest h)

  abbrev pub or_first : Option ResultRow → Option ResultRow → Option ResultRow
  or_first none o = o
  or_first (some row) o = some row

  pub inserted-first :
      (rows table : List ResultRow)
      → has_distinct_checks rows ≡ true
      → first mine (insert_rows rows table) ≡ or_first (first mine rows) (first mine table)
  inserted-first [] table distinct = refl
  inserted-first (row ∷ rows) table distinct =
      let apart : every (λ r. not (r.check_id == row.check_id)) rows ≡ true =
        ground (arith, distinct) in
      let rest : has_distinct_checks rows ≡ true = ground (arith, distinct) in
      let later = inserted-first rows (insert_row row table) rest in
      elim (Bool-cases (mine row)) [
        | inl h ↦ ground (arith, h, later, insert-first row table, first-fresh row rows apart h)
        | inr h ↦ ground (arith, h, later, insert-first row table)
      ]

-- A row that `toResultRows` made of a verdict.
abbrev pub IsMade : Poll → List ResultRow → ResultRow → Type 0
IsMade poll table row =
    (result : NodeCheckResult) × (row ≡ to_result_row poll.node_id table poll.observed_at result)

module _ (poll : Poll) (table : List ResultRow) where
  map-IsMade :
      (results : List NodeCheckResult)
      → All (IsMade poll table) (map (to_result_row poll.node_id table poll.observed_at) results)
  map-IsMade [] = tt
  map-IsMade (result ∷ results) = ((result, refl), map-IsMade results)

  rows_of-IsMade : (answer : ChecksReply) → All (IsMade poll table) (rows_of poll table answer)
  rows_of-IsMade (answered results) = map-IsMade results
  rows_of-IsMade not_served = tt
  rows_of-IsMade threw = tt

  rows_due-IsMade : (due : List ServiceCheck) → All (IsMade poll table) (rows_due poll table due)
  rows_due-IsMade [] = tt
  rows_due-IsMade (check ∷ checks) = rows_of-IsMade (poll.run_checks (check ∷ checks))

  accepted_lem :
      (rows : List ResultRow)
      → All (IsMade poll table) rows
      → All (IsMade poll table) (if is_accepted poll.checks rows then rows else [])
        × (has_distinct_checks (if is_accepted poll.checks rows then rows else []) ≡ true)
  accepted_lem rows made = elim (Bool-cases (is_accepted poll.checks rows)) [
    | inl e ↦ (rw e made, rw e (ground (arith, e)))
    | inr e ↦ (rw e tt, rw e refl)
  ]

  pub recorded_rows-IsMade :
      All (IsMade poll table) (recorded_rows poll table)
      × (has_distinct_checks (recorded_rows poll table) ≡ true)
  unfolding recorded_rows
  recorded_rows-IsMade =
      let due =
        select_due_checks poll.node_id (checks_for_node poll.checks poll.policy) table
          poll.observed_at in
      accepted_lem (rows_due poll table due) (rows_due-IsMade due)

pub first-All {ℓ} :
    {A : Type ℓ} (P : A → Type 0) (p : A → Bool) (xs : List A) (a : A)
    → first p xs ≡ some a
    → All P xs
    → P a
first-All P p [] a h all = absurd (ground (arith, h))
first-All P p (x ∷ xs) a h (px, all) = elim (Bool-cases (p x)) [
  | inl e ↦ subst P (ground (arith, h, e)) px
  | inr e ↦ first-All P p xs a (ground (arith, h, e)) all
]
