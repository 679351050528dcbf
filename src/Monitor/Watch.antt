-- ===== src/Monitor/Watch.antt =====
-- What the monitor promises of one check: a state of its own, which only its results move.
use kryon.Common.{
  ℕ, ◌+◌, String, Option, none, some, List, [], ◌∷◌, ◌++◌, leb, str_eq, keep, if◌then◌else◌,
}
use kryon.Monitor.{CheckResult, Alert, failing, still_failing, recovered, alert_reminder_ms}

-- A check that fails, since when, and the time of its latest alert
pub record Outage : Type 0 where
  pub since : ℕ
  pub alerted : ℕ

-- One alert when the check starts to fail, another whenever the latest is an hour old, one when it heals.
unfoldable pub watch : ℕ → CheckResult → Option Outage → Option Outage × List Alert
unfolding alert_reminder_ms
watch now r none =
    if r.is_ok
    then (none, [])
    else (some (record { since = now; alerted = now }), failing r.name r.detail ∷ [])
watch now r (some o) =
    if r.is_ok
    then (none, recovered r.name o.since now r.detail ∷ [])
    else if leb (o.alerted + alert_reminder_ms) now
    then (some (record o { alerted = now }), still_failing r.name o.since now r.detail ∷ [])
    else (some o, [])

unfoldable pub watch_all : ℕ → List CheckResult → Option Outage → Option Outage × List Alert
unfolding watch
watch_all now [] o = (o, [])
watch_all now (r ∷ rest) o =
    let (next, posted) = watch now r o in
    let (last, more) = watch_all now rest next in (last, posted ++ more)

-- Over any calls of `runChecks`, with only the results of one name
unfoldable pub watch_run :
    String → List (ℕ × List CheckResult) → Option Outage → Option Outage × List Alert
unfolding watch_all keep
watch_run name [] o = (o, [])
watch_run name ((now, results) ∷ rest) o =
    let (next, posted) = watch_all now (keep (λ r. str_eq r.name name) results) o in
    let (last, more) = watch_run name rest next in (last, posted ++ more)
