-- ===== src/ServiceChecks.antt =====
-- The service checks of a node: apps/worker/src/serviceChecks.ts, `runNodeServiceChecks` of
-- apps/worker/src/telemetry.ts, and the table node_service_check_results, which has one row for a
-- node and a check. A time is in milliseconds, and a text is its UTF-16 code units. The node agent
-- is an argument: what its `runChecks` comes to.
mod Table
pub mod Outage
mod Tests
use amnezia_shared_panel.Base.{
  ℕ, ◌+◌, ◌*◌, Bool, true, false, not, ◌&&◌, ◌||◌, List, [], ◌∷◌, map, Option, none, some,
  if◌then◌else◌, ◌==◌, ltb, leb, any, every, first, keep, take, or_else,
}

pub data ServiceCheckStatus : Type 0 where
  ok : ServiceCheckStatus
  failed : ServiceCheckStatus
  error : ServiceCheckStatus

-- NodeServiceCheck. The probe and its assertions are passed to the agent as they are stored.
pub record ServiceCheck : Type 0 where
  pub id : ℕ
  pub probe : List ℕ
  pub interval_sec : ℕ
  pub enabled : Bool
  pub next_due_at : Option ℕ

-- A row of the results table, ServiceCheckResultRow.
pub record ResultRow : Type 0 where
  pub node_id : ℕ
  pub check_id : ℕ
  pub status : ServiceCheckStatus
  pub http_status : Option ℕ
  pub latency_ms : ℕ
  pub detail : Option (List ℕ)
  pub final_url : Option (List ℕ)
  pub checked_at : ℕ
  pub failing_since : Option ℕ

-- NodeCheckResult, one check's verdict as the agent reports it.
pub record NodeCheckResult : Type 0 where
  pub id : ℕ
  pub status : ServiceCheckStatus
  pub http_status : Option ℕ
  pub latency_ms : ℕ
  pub detail : Option (List ℕ)
  pub final_url : Option (List ℕ)

pub record NodeCheckPolicy : Type 0 where
  pub checks_enabled : Bool
  pub disabled_check_ids : List ℕ

abbrev pub checks_for_node : List ServiceCheck → NodeCheckPolicy → List ServiceCheck
checks_for_node checks policy =
    if not policy.checks_enabled
    then []
    else keep (λ check. not (any (λ id. id == check.id) policy.disabled_check_ids)) checks

abbrev error_retry_ms : ℕ
error_retry_ms = 5 * 60 * 1_000

abbrev error_retry_window_ms : ℕ
error_retry_window_ms = 60 * 60 * 1_000

abbrev pub is_ok : ServiceCheckStatus → Bool
is_ok ok = true
is_ok failed = false
is_ok error = false

abbrev is_error : ServiceCheckStatus → Bool
is_error ok = false
is_error failed = false
is_error error = true

-- Whether an outage that began at `since` is younger than the window: `now - since` may be
-- negative, and then it is.
abbrev is_fresh : ℕ → Option ℕ → Bool
is_fresh now none = false
is_fresh now (some since) = ltb now (since + error_retry_window_ms)

abbrev pub next_run_ms : ResultRow → ℕ → ℕ → ℕ
next_run_ms previous interval_sec now =
    previous.checked_at
    + (if is_error previous.status && is_fresh now previous.failing_since
        then error_retry_ms
        else interval_sec * 1_000)

-- The "run now" marker fires if it has come and is newer than the last result.
abbrev is_marked : ResultRow → ℕ → Option ℕ → Bool
is_marked previous now none = false
is_marked previous now (some due_at) = leb due_at now && ltb previous.checked_at due_at

abbrev pub is_due : ℕ → ServiceCheck → Option ResultRow → Bool
is_due now check none = check.enabled
is_due now check (some previous) =
    check.enabled
    && (leb (next_run_ms previous check.interval_sec now) now
        || is_marked previous now check.next_due_at)

abbrev pub is_row : ℕ → ℕ → ResultRow → Bool
is_row node_id check_id row = row.node_id == node_id && row.check_id == check_id

-- `previousByNode.get(nodeId)?.get(checkId)`.
abbrev pub previous_row : ℕ → ℕ → List ResultRow → Option ResultRow
previous_row node_id check_id rows = first (is_row node_id check_id) rows

abbrev pub select_due_checks : ℕ → List ServiceCheck → List ResultRow → ℕ → List ServiceCheck
select_due_checks node_id checks rows now =
    keep (λ check. is_due now check (previous_row node_id check.id rows)) checks

abbrev truncate : ℕ → Option (List ℕ) → Option (List ℕ)
truncate max_length none = none
truncate max_length (some []) = none
truncate max_length (some (c ∷ cs)) = some (take max_length (c ∷ cs))

-- When a broken check broke: with the result before it, if that was broken too.
abbrev pub broken_since : ℕ → Option ResultRow → ℕ
broken_since now none = now
broken_since now (some previous) =
    if not (is_ok previous.status) then or_else previous.failing_since previous.checked_at else now

unfoldable pub to_result_row : ℕ → List ResultRow → ℕ → NodeCheckResult → ResultRow
to_result_row node_id rows now result = record {
  node_id = node_id;
  check_id = result.id;
  status = result.status;
  http_status = result.http_status;
  latency_ms = result.latency_ms;
  detail = truncate 300 result.detail;
  final_url = truncate 500 result.final_url;
  checked_at = now;
  failing_since =
      if is_ok result.status
      then none
      else some (broken_since now (previous_row node_id result.id rows));
}

-- What `runChecks` comes to: results, `null` for an agent without the route, or an error.
pub data ChecksReply : Type 0 where
  answered : List NodeCheckResult → ChecksReply
  not_served : ChecksReply
  threw : ChecksReply

abbrev pub insert_row : ResultRow → List ResultRow → List ResultRow
insert_row row [] = row ∷ []
insert_row row (r ∷ rs) =
    if is_row row.node_id row.check_id r then row ∷ rs else r ∷ insert_row row rs

abbrev pub insert_rows : List ResultRow → List ResultRow → List ResultRow
insert_rows [] table = table
insert_rows (row ∷ rows) table = insert_rows rows (insert_row row table)

-- The database refuses an insert that would write one row twice, and a row of no check. Numbers are
-- taken to fit the columns, and texts to have no NUL.
abbrev pub has_distinct_checks : List ResultRow → Bool
has_distinct_checks [] = true
has_distinct_checks (row ∷ rows) =
    every (λ r. not (r.check_id == row.check_id)) rows && has_distinct_checks rows

abbrev pub is_accepted : List ServiceCheck → List ResultRow → Bool
is_accepted checks rows =
    every (λ row. any (λ check. check.id == row.check_id) checks) rows && has_distinct_checks rows

-- One poll of a node, as far as its checks go.
pub record Poll : Type 0 where
  pub node_id : ℕ
  pub policy : NodeCheckPolicy
  pub checks : List ServiceCheck
  pub run_checks : List ServiceCheck → ChecksReply
  pub observed_at : ℕ

abbrev rows_of : Poll → List ResultRow → ChecksReply → List ResultRow
rows_of poll table (answered results) =
    map (to_result_row poll.node_id table poll.observed_at) results
rows_of poll table not_served = []
rows_of poll table threw = []

abbrev rows_due : Poll → List ResultRow → List ServiceCheck → List ResultRow
rows_due poll table [] = []
rows_due poll table (check ∷ checks) = rows_of poll table (poll.run_checks (check ∷ checks))

-- The rows that a poll writes: none, if it asks for none or is refused them.
unfoldable pub recorded_rows : Poll → List ResultRow → List ResultRow
unfolding to_result_row
recorded_rows poll table =
    let rows = rows_due poll table (
      select_due_checks poll.node_id (checks_for_node poll.checks poll.policy) table
        poll.observed_at) in
    if is_accepted poll.checks rows then rows else []

unfoldable pub run_node_service_checks : Poll → List ResultRow → List ResultRow
run_node_service_checks poll table = insert_rows (recorded_rows poll table) table
