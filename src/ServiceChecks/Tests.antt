-- ===== src/ServiceChecks/Tests.antt =====
-- The service checks run on small inputs.
use amnezia_shared_panel.Base.{◌≡◌, refl, true, List, [], ◌∷◌, map, none, some, ℕ}
use amnezia_shared_panel.ServiceChecks.{
  ServiceCheckStatus, ok, failed, error, ServiceCheck, NodeCheckResult, NodeCheckPolicy, Poll,
  ChecksReply, answered, previous_row, checks_for_node, recorded_rows, run_node_service_checks,
  to_result_row,
}
use amnezia_shared_panel.ServiceChecks.Outage.{polled-outage, polled, verdicts, outage, status_of}

abbrev daily : ServiceCheck
daily = record { id = 4; probe = []; interval_sec = 86_400; enabled = true; next_due_at = none }

abbrev every_check : NodeCheckPolicy
every_check = record { checks_enabled = true; disabled_check_ids = [] }

abbrev result_with : ServiceCheckStatus → NodeCheckResult
result_with status = record {
  id = 4;
  status = status;
  http_status = none;
  latency_ms = 20;
  detail = some [];
  final_url = none;
}

abbrev poll_at : ℕ → ChecksReply → Poll
poll_at now answer = record {
  node_id = 1;
  policy = every_check;
  checks = daily ∷ [];
  run_checks = λ checks. answer;
  observed_at = now;
}

abbrev found : ServiceCheckStatus → ChecksReply
found status = answered (result_with status ∷ [])

-- The newest first: a good day, an error, a retry after a minute that is not due yet, one after
-- five minutes that fails, and a failure on the day after it.
abbrev polls : List Poll
polls =
    poll_at 173_100_000 (found failed)
    ∷ poll_at 86_700_000 (found failed)
    ∷ poll_at 86_460_000 (found ok)
    ∷ poll_at 86_400_000 (found error)
    ∷ poll_at 0 (found ok)
    ∷ []

polled-outage_example : status_of (previous_row 1 4 (polled polls)) ≡ outage (verdicts 1 4 polls)
polled-outage_example = polled-outage 1 4 polls

fails_since_the_error : status_of (previous_row 1 4 (polled polls)) ≡ some (failed, some 86_400_000)
unfolding polled run_node_service_checks recorded_rows to_result_row
fails_since_the_error = refl

early_retry_is_skipped :
    map (λ v. v.1) (verdicts 1 4 polls) ≡ 173_100_000 ∷ 86_700_000 ∷ 86_400_000 ∷ 0 ∷ []
unfolding verdicts polled run_node_service_checks recorded_rows to_result_row
early_retry_is_skipped = refl

-- A disabled check is not asked for, and a reply that names a check twice is not stored.
disabled_is_left_out :
    checks_for_node (daily ∷ []) (record every_check { disabled_check_ids = 4 ∷ [] }) ≡ []
disabled_is_left_out = refl

twice_is_refused :
    run_node_service_checks (poll_at 0 (answered (result_with ok ∷ result_with error ∷ []))) [] ≡ []
unfolding run_node_service_checks recorded_rows to_result_row
twice_is_refused = refl
