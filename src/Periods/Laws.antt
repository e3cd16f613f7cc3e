-- ===== src/Periods/Laws.antt =====
-- Every period the worker waits is within its bounds, and the cache never serves an old row for
-- longer than its window.
use amnezia_shared_panel.Base.{
  ℕ, ◌+◌, ◌≤◌, ◌<◌, ◌≡◌, true, false, Option, none, some, if◌then◌else◌, ltb, or_else, arith,
  Bool-cases, inl, inr,
}
use amnezia_shared_panel.Periods.{
  Field, Number, not_finite, negative, whole, worker_period_fields, clamp_worker_period, unbounded,
  is_poll_bound, resolve_worker_period, Overrides, Cache, overrides_at, store, is_warm,
  telemetry_poll_sec,
}

abbrev pub IsInBounds : Field → ℕ → Type 0
IsInBounds field n =
    ((worker_period_fields field).lowest ≤ n) × (n ≤ (worker_period_fields field).highest)

-- The bounds are in order, and the highest poll period is no higher than that of a sample.
ordered :
    (field : Field) → (worker_period_fields field).lowest ≤ (worker_period_fields field).highest
unfolding worker_period_fields
ordered field = ground arith

unbounded-IsInBounds :
    (field : Field) (o : Option Number) (default : ℕ)
    → IsInBounds field default
    → IsInBounds field (or_else (clamp_worker_period field o) default)
unfolding clamp_worker_period
unbounded-IsInBounds field none default h = h
unbounded-IsInBounds field (some not_finite) default h = h
unbounded-IsInBounds field (some negative) default h = ground (arith, ordered field)
unbounded-IsInBounds field (some (whole n)) default h = ground (arith, ordered field)

raise-IsInBounds :
    (field : Field) (poll value : ℕ)
    → is_poll_bound field ≡ true
    → IsInBounds telemetry_poll_sec poll
    → IsInBounds field value
    → IsInBounds field (if ltb value poll then poll else value)
unfolding worker_period_fields
raise-IsInBounds field poll value b p v = ground arith

-- Whatever is stored, a period is within its field's bounds if the worker's defaults are.
pub resolve_worker_period-IsInBounds :
    (field : Field) (overrides : Overrides) (defaults : Field → ℕ)
    → ((f : Field) → IsInBounds f (defaults f))
    → IsInBounds field (resolve_worker_period field overrides defaults)
unfolding resolve_worker_period unbounded
resolve_worker_period-IsInBounds field overrides defaults h =
    let value = unbounded-IsInBounds field (overrides field) (defaults field) (h field) in
    let poll =
      unbounded-IsInBounds telemetry_poll_sec (overrides telemetry_poll_sec)
        (defaults telemetry_poll_sec) (h telemetry_poll_sec) in
    elim (Bool-cases (is_poll_bound field)) [
      | inl b ↦
          rw (b, resolve_worker_period)
            (raise-IsInBounds field (unbounded telemetry_poll_sec overrides defaults)
              (unbounded field overrides defaults) b poll value)
      | inr b ↦ rw (b, resolve_worker_period) value
    ]

-- A sample period is never below the poll period, whatever is stored and whatever the defaults.
resolve_worker_period-poll :
    (field : Field) (overrides : Overrides) (defaults : Field → ℕ)
    → is_poll_bound field ≡ true
    → resolve_worker_period telemetry_poll_sec overrides defaults
      ≤ resolve_worker_period field overrides defaults
unfolding resolve_worker_period
resolve_worker_period-poll field overrides defaults b = ground arith

-- A call within the window after a good read serves that row and asks nothing; a failed read keeps
-- the last good row and does not start a window, so the next call asks again.
overrides_at-window :
    (ttl now later : ℕ) (row : Overrides) (next : Option Overrides) (cache : Cache)
    → is_warm ttl now cache.cached_at ≡ false
    → later < now + ttl
    → (overrides_at ttl later next (overrides_at ttl now (some row) cache).1
        ≡ (row, record { cached = row; cached_at = some now }))
      × (overrides_at ttl now none cache ≡ (cache.cached, cache))
      × (overrides_at ttl now (some row) (overrides_at ttl now none cache).1
          ≡ (row, record { cached = row; cached_at = some now }))
unfolding overrides_at store
overrides_at-window ttl now later row next cache h soon = ground arith
