-- ===== src/Periods/Tests.antt =====
-- A stored pair of periods that contradict each other.
use amnezia_shared_panel.Base.{ℕ, List, [], ◌∷◌, ◌≡◌, refl, none, some, arith}
use amnezia_shared_panel.Periods.{
  Field, whole, Overrides, resolve_worker_period, telemetry_poll_sec, node_metrics_sample_sec,
  peer_sample_sec, worker_period_fields,
}
use amnezia_shared_panel.Periods.Laws.{IsInBounds, resolve_worker_period-IsInBounds}
use amnezia_shared_panel.Periods.Settings.{
  Payload, named, unnamed, update_periods, sample_below, all_updates, read_worker_period_overrides,
}
use amnezia_shared_panel.Periods.Settings.Shown.{shown, all_updates-shown}

abbrev stored : Overrides
stored telemetry_poll_sec = some (whole 120)
stored node_metrics_sample_sec = some (whole 5)
stored _ = none

abbrev defaults : Field → ℕ
defaults f = (worker_period_fields f).fallback

raised : resolve_worker_period node_metrics_sample_sec stored defaults ≡ 120
unfolding resolve_worker_period worker_period_fields
raised = refl

defaults-IsInBounds : (f : Field) → IsInBounds f (defaults f)
unfolding worker_period_fields
defaults-IsInBounds f = ground arith

resolve_worker_period-IsInBounds_example :
    IsInBounds node_metrics_sample_sec
      (resolve_worker_period node_metrics_sample_sec stored defaults)
resolve_worker_period-IsInBounds_example =
    resolve_worker_period-IsInBounds node_metrics_sample_sec stored defaults defaults-IsInBounds

abbrev set_to : Field → ℕ → Payload
set_to telemetry_poll_sec n telemetry_poll_sec = named (some n)
set_to node_metrics_sample_sec n node_metrics_sample_sec = named (some n)
set_to peer_sample_sec n peer_sample_sec = named (some n)
set_to _ _ _ = unnamed

-- A poll period above the default sample periods is refused until both are raised.
abbrev posted : List Payload
posted =
    set_to telemetry_poll_sec 600
    ∷ set_to node_metrics_sample_sec 900
    ∷ set_to peer_sample_sec 700
    ∷ set_to telemetry_poll_sec 650
    ∷ []

first_is_refused : update_periods (set_to telemetry_poll_sec 600) (λ f. none) ≡ sample_below
unfolding update_periods worker_period_fields
first_is_refused = refl

last_is_stored : all_updates posted (λ f. none) telemetry_poll_sec ≡ some 650
unfolding all_updates update_periods worker_period_fields
last_is_stored = refl

all_updates-shown_example :
    resolve_worker_period peer_sample_sec
      (read_worker_period_overrides (all_updates posted (λ f. none)))
      (λ f. (worker_period_fields f).fallback)
    ≡ shown (all_updates posted (λ f. none)) peer_sample_sec
all_updates-shown_example = all_updates-shown posted peer_sample_sec
