-- ===== src/Periods.antt =====
-- The worker's periods: `WORKER_PERIOD_FIELDS`, `clampWorkerPeriod` and `sampleBelowPoll` of
-- packages/contracts/src/index.ts, and `resolveWorkerPeriod` and the cache of
-- apps/worker/src/periods.ts. A stored number is seen by its integer part. Calls that share one
-- read in flight are one call.
mod Tests
pub mod Laws
pub mod Settings
use amnezia_shared_panel.Base.{
  ℕ, ◌+◌, ◌*◌, min, max, Bool, true, false, Option, none, some, if◌then◌else◌, ltb, or_else,
}

pub data Field : Type 0 where
  telemetry_poll_sec node_metrics_sample_sec node_metrics_retention_days peer_sample_sec : Field
  maintenance_interval_sec agent_release_refresh_sec rule_fetch_interval_sec : Field
  access_reconcile_sec offboarded_user_retention_days completed_job_retention_days : Field

pub data PeriodUnit : Type 0 where
  sec day : PeriodUnit

pub record Bounds : Type 0 where
  pub lowest : ℕ
  pub highest : ℕ
  pub fallback : ℕ
  pub unit : PeriodUnit

abbrev in_seconds : ℕ → ℕ → ℕ → Bounds
in_seconds lowest highest fallback = record {
  lowest = lowest;
  highest = highest;
  fallback = fallback;
  unit = sec;
}

abbrev in_days : ℕ → ℕ → ℕ → Bounds
in_days lowest highest fallback = record {
  lowest = lowest;
  highest = highest;
  fallback = fallback;
  unit = day;
}

unfoldable pub worker_period_fields : Field → Bounds
worker_period_fields telemetry_poll_sec = in_seconds 30 86_400 60
worker_period_fields node_metrics_sample_sec = in_seconds 30 86_400 300
worker_period_fields node_metrics_retention_days = in_days 1 3_650 7
worker_period_fields peer_sample_sec = in_seconds 60 86_400 300
worker_period_fields maintenance_interval_sec = in_seconds 3_600 604_800 3_600
worker_period_fields agent_release_refresh_sec = in_seconds 300 604_800 1_800
worker_period_fields rule_fetch_interval_sec = in_seconds 900 604_800 21_600
worker_period_fields access_reconcile_sec = in_seconds 300 604_800 3_600
worker_period_fields offboarded_user_retention_days = in_days 1 3_650 30
worker_period_fields completed_job_retention_days = in_days 1 3_650 30

-- A number of the source's language: NaN or infinite, or with an integer part.
pub data Number : Type 0 where
  not_finite negative : Number
  whole : ℕ → Number

abbrev clamp : Bounds → ℕ → ℕ
clamp b n = min b.highest (max b.lowest n)

unfoldable pub clamp_worker_period : Field → Option Number → Option ℕ
unfolding worker_period_fields
clamp_worker_period field none = none
clamp_worker_period field (some not_finite) = none
clamp_worker_period field (some negative) = some (clamp (worker_period_fields field) 0)
clamp_worker_period field (some (whole n)) = some (clamp (worker_period_fields field) n)

abbrev pub is_poll_bound : Field → Bool
is_poll_bound node_metrics_sample_sec = true
is_poll_bound peer_sample_sec = true
is_poll_bound _ = false

-- sampleBelowPoll, whose pair only goes into a message.
abbrev pub sample_below_poll : ℕ → ℕ → Bool
sample_below_poll poll sample = ltb sample poll

unbounded : Field → (Field → Option Number) → (Field → ℕ) → ℕ
unfolding clamp_worker_period
unbounded field overrides defaults =
    or_else (clamp_worker_period field (overrides field)) (defaults field)

unfoldable pub resolve_worker_period : Field → (Field → Option Number) → (Field → ℕ) → ℕ
unfolding unbounded
resolve_worker_period field overrides defaults =
    let value = unbounded field overrides defaults in
    let poll = unbounded telemetry_poll_sec overrides defaults in
    if is_poll_bound field then if sample_below_poll poll value then poll else value else value

abbrev pub Overrides : Type 0
Overrides = Field → Option Number

-- The cache of the settings row: the last good row, and when it was read.
pub record Cache : Type 0 where
  pub cached : Overrides
  pub cached_at : Option ℕ

abbrev pub is_warm : ℕ → ℕ → Option ℕ → Bool
is_warm ttl now none = false
is_warm ttl now (some t) = ltb now (t + ttl)

store : ℕ → Option Overrides → Cache → Overrides × Cache
store now none cache = (cache.cached, cache)
store now (some row) cache = (row, record { cached = row; cached_at = some now })

-- `read` is what the database answers if it is asked: a row, or nothing if the read fails.
unfoldable pub overrides_at : ℕ → ℕ → Option Overrides → Cache → Overrides × Cache
unfolding store
overrides_at ttl now read cache =
    if is_warm ttl now cache.cached_at then (cache.cached, cache) else store now read cache

abbrev to_ms : PeriodUnit → ℕ → ℕ
to_ms day value = value * 24 * 60 * 60 * 1_000
to_ms sec value = value * 1_000

unfoldable pub interval_ms : Field → Overrides → (Field → ℕ) → ℕ
unfolding resolve_worker_period worker_period_fields
interval_ms field overrides defaults =
    to_ms (worker_period_fields field).unit (resolve_worker_period field overrides defaults)
