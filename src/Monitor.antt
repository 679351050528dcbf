-- ===== src/Monitor.antt =====
-- client/scripts/monitor.ts: the alerts that the results of its checks raise. `Monitor.Checks` has the checks. The calls of
-- `runChecks` are one after the other; that one is over when the interval starts the next is taken as given.
pub mod Watch
pub mod Watched
pub mod Outages
pub mod Reminded
pub mod Checks
pub mod Lags
pub mod Funds
pub mod Round
pub mod Feeds
pub mod Tests
use kryon.Common.{
  get_key, set_key, delete_key, ℕ, ◌+◌, ◌-◌, ◌*◌, ◌/◌, ◌%◌, String, ◌<>◌, Bool, true, false, not,
  Option, none, some, List, [], ◌∷◌, ltb, leb, ◌==◌, ◌++◌, str_eq, if◌then◌else◌, to_decimal,
}

-- What a check comes to. `ms`, which is only printed, is left out.
pub record CheckResult : Type 0 where
  pub name : String
  pub is_ok : Bool
  pub detail : String

pub record AlertState : Type 0 where
  pub failing : Bool
  pub since : ℕ
  pub last_alert_at : ℕ
  pub last_detail : String

-- The `Map` of the alerts, by the name of the check
abbrev pub AlertStates : Type 0
AlertStates = List (String × AlertState)

unfoldable pub alert_reminder_ms : ℕ
alert_reminder_ms = 60 * 60 * 1000

-- `Math.round(ms / 60_000)` of `now - since`, which is negative where the clock was set back: its sign and its size
unfoldable pub minutes_behind : ℕ → ℕ → ℕ
minutes_behind since now = (since - now + 29999) / 60000

-- `fmtDuration(now - since)`
unfoldable pub fmt_duration : ℕ → ℕ → String
unfolding minutes_behind
fmt_duration since now =
    if ltb now since
    then (if minutes_behind since now == 0 then "" else "-")
      <> to_decimal (minutes_behind since now)
      <> "m"
    else (let minutes = (now - since + 30000) / 60000 in
        if ltb minutes 60
        then to_decimal minutes <> "m"
        else to_decimal (minutes / 60) <> "h" <> to_decimal (minutes % 60) <> "m")

-- What `processAlerts` passes to `postAlert`: the check, the time since when it fails, now, and the detail
pub data Alert : Type 0 where
  failing : String → String → Alert
  still_failing : String → ℕ → ℕ → String → Alert
  recovered : String → ℕ → ℕ → String → Alert

abbrev pub name_of : Alert → String
name_of (failing name detail) = name
name_of (still_failing name since now detail) = name
name_of (recovered name since now detail) = name

unfoldable pub content : Alert → String
unfolding fmt_duration
content (failing name detail) = "🔴 **Kryon " <> name <> "** failing: " <> detail
content (still_failing name since now detail) =
    "🔁 **Kryon " <> name <> "** still failing after " <> fmt_duration since now <> ": " <> detail
content (recovered name since now detail) =
    "🟢 **Kryon " <> name <> "** recovered after " <> fmt_duration since now <> " (" <> detail <> ")"

-- The states, and the alerts in the order in which `postAlert` is called with them, which `post_alerts` sends on
abbrev pub Alerting : Type 0
Alerting = AlertStates × List Alert

abbrev pub started : ℕ → CheckResult → AlertState
started now r = record { failing = true; since = now; last_alert_at = now; last_detail = r.detail }

abbrev pub on_failure : ℕ → CheckResult → Option AlertState → AlertStates → Alerting
on_failure now r none states = (set_key r.name (started now r) states, failing r.name r.detail ∷ [])
on_failure now r (some prev) states =
    if not prev.failing
    then (set_key r.name (started now r) states, failing r.name r.detail ∷ [])
    else if leb (prev.last_alert_at + alert_reminder_ms) now
    then (
      set_key r.name (record prev { last_alert_at = now; last_detail = r.detail }) states,
      still_failing r.name prev.since now r.detail ∷ [],
    )
    else (set_key r.name (record prev { last_detail = r.detail }) states, [])

abbrev pub on_success : ℕ → CheckResult → Option AlertState → AlertStates → Alerting
on_success now r none states = (states, [])
on_success now r (some prev) states =
    if prev.failing
    then (delete_key r.name states, recovered r.name prev.since now r.detail ∷ [])
    else (states, [])

-- One round of the loop
unfoldable pub process_result : ℕ → CheckResult → AlertStates → Alerting
unfolding get_key set_key delete_key alert_reminder_ms
process_result now r states =
    if not r.is_ok
    then on_failure now r (get_key r.name states) states
    else on_success now r (get_key r.name states) states

unfoldable pub process_alerts : ℕ → List CheckResult → AlertStates → Alerting
unfolding process_result
process_alerts now [] states = (states, [])
process_alerts now (r ∷ rest) states =
    let (next, posted) = process_result now r states in
    let (last, more) = process_alerts now rest next in (last, posted ++ more)

-- The results of the calls of `runChecks` from a start on, each with its time
unfoldable pub run_alerts : List (ℕ × List CheckResult) → AlertStates → Alerting
unfolding process_alerts
run_alerts [] states = (states, [])
run_alerts ((now, results) ∷ rest) states =
    let (next, posted) = process_alerts now results states in
    let (last, more) = run_alerts rest next in (last, posted ++ more)

-- What `postAlert` requests of the webhook: nothing where ALERT_WEBHOOK_URL is not set. The answer, also an error, is
-- only logged, so a request may not arrive.
unfoldable pub post_alerts : Option String → List Alert → List String
unfolding content
post_alerts none alerts = []
post_alerts (some url) [] = []
post_alerts (some url) (a ∷ rest) =
    let others = post_alerts (some url) rest in if str_eq url "" then [] else content a ∷ others
