-- ===== src/ServiceChecks/Outage.antt =====
-- Since when a check is failing: `toResultRows` carries it from row to row.
use mathlib.Core.Path.{subst}
use amnezia_shared_panel.Base.{
  ℕ, ◌≡◌, refl, sym, ap, ap₂, ◌∙◌, true, ◌&&◌, List, [], ◌∷◌, Option, none, some, if◌then◌else◌,
  ◌==◌, first-passes, or_else, arith,
}
use amnezia_shared_panel.ServiceChecks.{
  ServiceCheckStatus, ok, failed, error, is_ok, ResultRow, is_row, previous_row, broken_since,
  to_result_row, Poll, recorded_rows, run_node_service_checks,
}
use amnezia_shared_panel.ServiceChecks.Table.{
  or_first, inserted-first, IsMade, recorded_rows-IsMade, first-All,
}

-- A verdict and when it was recorded.
abbrev pub Verdict : Type 0
Verdict = ServiceCheckStatus × ℕ

-- The times of the verdicts since the last `ok`, the newest first.
unfoldable pub streak : List Verdict → List ℕ
streak [] = []
streak ((status, at) ∷ earlier) = if is_ok status then [] else at ∷ streak earlier

abbrev pub last : List ℕ → Option ℕ
last [] = none
last (t ∷ ts) = some (or_else (last ts) t)

-- What the table says of a check: its status, and since when it is failing.
abbrev pub status_of : Option ResultRow → Option (ServiceCheckStatus × Option ℕ)
status_of none = none
status_of (some row) = some (row.status, row.failing_since)

-- The same of the verdicts of a check, the newest first.
abbrev pub outage : List Verdict → Option (ServiceCheckStatus × Option ℕ)
outage [] = none
outage ((status, at) ∷ earlier) = some (status, last (streak ((status, at) ∷ earlier)))

-- The table after the polls, the newest of which stands first.
unfoldable pub polled : List Poll → List ResultRow
polled [] = []
polled (poll ∷ earlier) = run_node_service_checks poll (polled earlier)

abbrev with_verdict : Option ResultRow → List Verdict → List Verdict
with_verdict none earlier = earlier
with_verdict (some row) earlier = (row.status, row.checked_at) ∷ earlier

-- The verdicts that the polls recorded of a node's check.
unfoldable pub verdicts : ℕ → ℕ → List Poll → List Verdict
verdicts node_id check_id [] = []
verdicts node_id check_id (poll ∷ earlier) =
    with_verdict (previous_row node_id check_id (recorded_rows poll (polled earlier)))
      (verdicts node_id check_id earlier)

-- A row and the verdicts agree.
abbrev Agree : Option ResultRow → List Verdict → Type 0
Agree o earlier = status_of o ≡ outage earlier

-- A new row that is broken fails since the first of the broken verdicts before it.
broken_by_status :
    (row : ResultRow) (at now : ℕ) (earlier : List Verdict) (status : ServiceCheckStatus)
    → row.status ≡ status
    → row.failing_since ≡ last (streak ((status, at) ∷ earlier))
    → broken_since now (some row) ≡ or_else (last (streak ((status, at) ∷ earlier))) now
unfolding streak
broken_by_status row at now earlier ok s f = rw (s, broken_since) refl
broken_by_status row at now earlier failed s f = rw (s, f, broken_since) refl
broken_by_status row at now earlier error s f = rw (s, f, broken_since) refl

broken_lem :
    (o : Option ResultRow) (earlier : List Verdict) (now : ℕ)
    → Agree o earlier
    → broken_since now o ≡ or_else (last (streak earlier)) now
unfolding streak
broken_lem none [] now agree = refl
broken_lem none (v ∷ earlier) now agree = absurd (ground (arith, agree))
broken_lem (some row) [] now agree = absurd (ground (arith, agree))
broken_lem (some row) ((status, at) ∷ earlier) now agree =
    broken_by_status row at now earlier status
      (ap (λ o. (or_else {A = ServiceCheckStatus × Option ℕ} o (ok, none)).0) agree)
      (ap (λ o. (or_else {A = ServiceCheckStatus × Option ℕ} o (ok, none)).1) agree)

-- The failing time that a new row is given is that of the verdicts with the new one.
carried :
    (o : Option ResultRow) (earlier : List Verdict) (now : ℕ) (status : ServiceCheckStatus)
    → Agree o earlier
    → (if is_ok status then none else some (broken_since now o))
      ≡ last (streak ((status, now) ∷ earlier))
unfolding streak
carried o earlier now ok agree = refl
carried o earlier now failed agree = ap some (broken_lem o earlier now agree)
carried o earlier now error agree = ap some (broken_lem o earlier now agree)

module _ (node_id check_id : ℕ) where
  -- A row that is made for the check carries on what the table says of it.
  made_agrees :
      (poll : Poll) (table : List ResultRow) (earlier : List Verdict) (row : ResultRow)
      → Agree (previous_row node_id check_id table) earlier
      → is_row node_id check_id row ≡ true
      → IsMade poll table row
      → Agree (some row) (with_verdict (some row) earlier)
  unfolding to_result_row
  made_agrees poll table earlier row agree h (result, e) =
      subst (λ r. is_row node_id check_id r ≡ true → Agree (some r) (with_verdict (some r) earlier))
        (sym e) (λ own. for_own own) h
    where
      for_own :
          (poll.node_id == node_id && result.id == check_id) ≡ true
          → some (
            result.status,
            (to_result_row poll.node_id table poll.observed_at result).failing_since,
          )
            ≡ outage ((result.status, poll.observed_at) ∷ earlier)
      for_own own =
          let node : node_id ≡ poll.node_id = ground (arith, own) in
          let check : check_id ≡ result.id = ground (arith, own) in
          let same = ap₂ (λ n c. previous_row n c table) node check in
          ap (λ since. some (result.status, since))
            (carried (previous_row poll.node_id result.id table) earlier poll.observed_at
              result.status (subst (λ o. Agree o earlier) same agree))

  recorded_agrees :
      (poll : Poll) (table : List ResultRow) (earlier : List Verdict) (o : Option ResultRow)
      → previous_row node_id check_id (recorded_rows poll table) ≡ o
      → Agree (previous_row node_id check_id table) earlier
      → Agree
          (or_first node_id check_id o (previous_row node_id check_id table))
          (with_verdict o earlier)
  recorded_agrees poll table earlier none e agree = agree
  recorded_agrees poll table earlier (some row) e agree =
      made_agrees poll table earlier row agree
        (first-passes (is_row node_id check_id) (recorded_rows poll table) row e)
        (first-All (IsMade poll table) (is_row node_id check_id) (recorded_rows poll table) row e
          (recorded_rows-IsMade poll table).0)

  -- The table that the polls leave, from an empty one on, says of a check on a node its last
  -- recorded verdict, and that it is failing since the first of the verdicts after the last `ok`,
  -- `failed` or `error` alike, however often it was asked for in between.
  pub polled-outage :
      (polls : List Poll)
      → status_of (previous_row node_id check_id (polled polls))
        ≡ outage (verdicts node_id check_id polls)
  unfolding polled verdicts run_node_service_checks
  polled-outage [] = refl
  polled-outage (poll ∷ earlier) =
      let table = polled earlier in
      ap status_of (
        inserted-first node_id check_id (recorded_rows poll table) table
          (recorded_rows-IsMade poll table).1)
      ∙ recorded_agrees poll table (verdicts node_id check_id earlier)
          (previous_row node_id check_id (recorded_rows poll table)) refl (polled-outage earlier)
