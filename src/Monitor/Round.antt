-- ===== src/Monitor/Round.antt =====
-- `runChecks` of client/scripts/monitor.ts.
use kryon.Common.{ℕ, List, [], ◌∷◌}
use kryon.Monitor.{CheckResult, AlertStates, Alerting, process_alerts}
use kryon.Monitor.Checks.{
  MonitorConfig, MonitorAnswers, timed, check_db_latency, check_oracle_freshness,
}
use kryon.Monitor.Lags.{check_matcher_lag, check_indexer_lag, check_app_health, check_web_socket}
use kryon.Monitor.Funds.{check_operator_balances, check_funding_freshness, check_insurance_coverage}

-- The results that `runChecks` gives to `processAlerts`
unfoldable pub check_results : MonitorConfig → MonitorAnswers → List CheckResult
unfolding timed
check_results c a =
    timed "db-latency" (check_db_latency a)
    ∷ timed "oracle-freshness" (check_oracle_freshness c a)
    ∷ timed "matcher-lag" (check_matcher_lag a)
    ∷ timed "indexer-lag" (check_indexer_lag a)
    ∷ timed "app-health" (check_app_health a)
    ∷ timed "websocket" (check_web_socket a)
    ∷ timed "operator-funds" (check_operator_balances c a)
    ∷ timed "funding-accrual" (check_funding_freshness c a)
    ∷ timed "insurance-cover" (check_insurance_coverage c a)
    ∷ []

unfoldable pub run_checks : MonitorConfig → ℕ → MonitorAnswers → AlertStates → Alerting
unfolding check_results
run_checks c now a states = process_alerts now (check_results c a) states
