-- ===== src/Periods/Settings.antt =====
-- The periods of a `portal-policy/update`: `adminAction` of
-- apps/control-api/src/postgresRepository.ts after `adminPolicyUpdateSchema`, whose bounds are
-- those of packages/contracts/src/index.ts. A payload names a field or leaves it out, and names it
-- with a whole number or with null. The row's other columns are left out.
pub mod Shown
use amnezia_shared_panel.Base.{
  ℕ, Bool, true, false, not, ◌&&◌, ◌||◌, List, [], ◌∷◌, Option, none, some, if◌then◌else◌, leb, any,
  every, or_else,
}
use amnezia_shared_panel.Periods.{
  Field, telemetry_poll_sec, node_metrics_sample_sec, node_metrics_retention_days, peer_sample_sec,
  maintenance_interval_sec, agent_release_refresh_sec, rule_fetch_interval_sec,
  access_reconcile_sec, offboarded_user_retention_days, completed_job_retention_days,
  worker_period_fields, sample_below_poll, Overrides, whole,
}

-- The columns of the settings row.
abbrev pub Stored : Type 0
Stored = Field → Option ℕ

pub data Named : Type 0 where
  unnamed : Named
  named : Option ℕ → Named

abbrev pub Payload : Type 0
Payload = Field → Named

abbrev pub worker_period_field_names : List Field
worker_period_field_names =
    telemetry_poll_sec ∷ node_metrics_sample_sec ∷ node_metrics_retention_days ∷ peer_sample_sec
    ∷ maintenance_interval_sec ∷ agent_release_refresh_sec ∷ rule_fetch_interval_sec
    ∷ access_reconcile_sec ∷ offboarded_user_retention_days ∷ completed_job_retention_days ∷ []

abbrev pub poll_bound_sample_fields : List Field
poll_bound_sample_fields = node_metrics_sample_sec ∷ peer_sample_sec ∷ []

-- `workerPeriodValue(field)`
abbrev pub worker_period_value : Field → Named → Bool
worker_period_value field unnamed = true
worker_period_value field (named none) = true
worker_period_value field (named (some n)) =
    leb (worker_period_fields field).lowest n && leb n (worker_period_fields field).highest

abbrev pub is_named : Named → Bool
is_named unnamed = false
is_named (named value) = true

-- The value that a column has after the update.
abbrev pub column_after : Named → Option ℕ → Option ℕ
column_after unnamed stored = stored
column_after (named value) stored = value

abbrev pub effective : Payload → Stored → Field → ℕ
effective payload stored field =
    or_else (column_after (payload field) (stored field)) (worker_period_fields field).fallback

abbrev pub has_conflict : Payload → Stored → Bool
has_conflict payload stored =
    any
      (λ field.
        sample_below_poll (effective payload stored telemetry_poll_sec)
          (effective payload stored field))
      poll_bound_sample_fields

pub data Saved : Type 0 where
  bad_request sample_below : Saved
  saved : Stored → Saved

unfoldable pub update_periods : Payload → Stored → Saved
unfolding worker_period_fields
update_periods payload stored =
    if not (every (λ field. worker_period_value field (payload field)) worker_period_field_names)
    then bad_request
    else if (is_named (payload telemetry_poll_sec)
          || any (λ field. is_named (payload field)) poll_bound_sample_fields)
        && has_conflict payload stored
    then sample_below
    else saved (λ field. column_after (payload field) (stored field))

-- The row after an update, and after updates one by one.
abbrev pub row_after : Saved → Stored → Stored
row_after bad_request stored = stored
row_after sample_below stored = stored
row_after (saved row) stored = row

unfoldable pub all_updates : List Payload → Stored → Stored
unfolding update_periods
all_updates [] stored = stored
all_updates (payload ∷ payloads) stored =
    all_updates payloads (row_after (update_periods payload stored) stored)

-- readWorkerPeriodOverrides: what the worker reads of the row.
abbrev pub read_worker_period_overrides : Stored → Overrides
read_worker_period_overrides stored field = elim (stored field) [
  | none ↦ none
  | some n ↦ some (whole n)
]
