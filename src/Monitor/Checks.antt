-- ===== src/Monitor/Checks.antt =====
-- The checks of client/scripts/monitor.ts and the round that makes them. Each answer of a service is given by what it
-- answers to; no question is asked twice in a round. The error of a check is the message of what it throws.
use kryon.Common.{
  ℕ, zero, suc, ◌+◌, ◌-◌, ◌*◌, ◌/◌, String, ◌<>◌, Bool, true, false, not, Option, none, some, List,
  [], ◌∷◌, length, ltb, leb, if◌then◌else◌, to_decimal, join,
}
use kryon.Common.Int.{ℤ}
use kryon.Database.{Db}
use kryon.Database.Exec.{Outcome, ok, thrown}
use kryon.Oracle.Activity.{ActivityStatus}
use kryon.Monitor.{CheckResult}

pub record MonitoredMarket : Type 0 where
  pub market_id : ℕ
  pub symbol : String
  pub oracle_symbol : String

pub record Operator : Type 0 where
  pub name : String
  pub address : String

-- What the simulation of `get_price` gives: its error, no value, or a snapshot with its `publish_time` if it has one
pub data PriceSimulation : Type 0 where
  sim_failed : String → PriceSimulation
  no_value : PriceSimulation
  snapshot : Option ℕ → PriceSimulation

-- The environment of the monitor. `operator_xlm_warn` is a double; `less`, `to_fixed` and `percent` are the language's
-- `<`, `toFixed`, the text of `Number(bps) / 100` and that of a double.
pub record MonitorConfig : Type 0 where
  pub markets : List MonitoredMarket
  pub env : String → Option String
  pub public_key : String → Option String
  pub oracle_max_age_secs : ℕ
  pub funding_stale_alert_secs : ℕ
  pub insurance_coverage_warn_bps : ℕ
  pub operator_xlm_warn : ℕ
  pub less : ℕ → ℕ → Bool
  pub to_fixed : ℕ → ℕ → String
  pub percent : ℤ → String
  pub number_text : ℕ → String

-- An answer of Horizon for an account: its status, and the native balance if the body has one
pub record HorizonAnswer : Type 0 where
  pub status : ℕ
  pub native : Option ℕ

-- What one round of checks is answered. Times are in milliseconds; `oracle_now` is the clock at a market.
pub record MonitorAnswers : Type 0 where
  pub select_one_ms : Outcome ℕ
  pub oracle_now : MonitoredMarket → ℕ
  pub get_price : MonitoredMarket → Outcome PriceSimulation
  pub activity : MonitoredMarket → Outcome ActivityStatus
  pub tables : Outcome Db
  pub database_now : ℕ
  pub market_age : Outcome (Option ℕ)
  pub health_status : Outcome ℕ
  pub pong : Outcome (Unit {0})
  pub horizon : Operator → Outcome HorizonAnswer
  pub funding_now : ℕ
  pub funding_state : MonitoredMarket → Outcome (Option (Option ℕ))
  pub insurance_coverage : MonitoredMarket → Outcome (Option ℤ)

-- `s.slice(0, n)`
unfoldable pub first_chars : ℕ → String → String
first_chars zero s = ""
first_chars (suc n) String.[] = ""
first_chars (suc n) (String.◌∷◌ c s) = String.◌∷◌ c (first_chars n s)

unfoldable pub timed : String → Outcome String → CheckResult
unfolding first_chars
timed name (ok detail) = record { name = name; is_ok = true; detail = detail }
timed name (thrown e) = record { name = name; is_ok = false; detail = first_chars 120 e }

abbrev on_latency : Outcome ℕ → Outcome String
on_latency (thrown e) = thrown e
on_latency (ok ms) =
    if ltb 2000 ms
    then thrown ("DB latency " <> to_decimal ms <> "ms exceeds 2000ms")
    else ok (to_decimal ms <> "ms")

unfoldable pub check_db_latency : MonitorAnswers → Outcome String
check_db_latency a = on_latency a.select_one_ms

-- What a loop over the markets or operators makes of one of them: a line of `results` or one of `problems`
pub data Verdict : Type 0 where
  healthy : String → Verdict
  problem : String → Verdict

abbrev pub add_verdict :
    Outcome Verdict → Outcome (List String × List String) → Outcome (List String × List String)
add_verdict (thrown e) rest = thrown e
add_verdict (ok v) (thrown e) = thrown e
add_verdict (ok (healthy t)) (ok (results, problems)) = ok (t ∷ results, problems)
add_verdict (ok (problem t)) (ok (results, problems)) = ok (results, t ∷ problems)

-- The `results` and the `problems` of a loop, which stops where an await throws
unfoldable pub collect :
    {A : Type 0} → (A → Outcome Verdict) → List A → Outcome (List String × List String)
collect verdict [] = ok ([], [])
collect verdict (x ∷ rest) = let others = collect verdict rest in add_verdict (verdict x) others

-- `Math.round(now / 1000 - publishTime)`; it is negative only where the price is of the future.
unfoldable pub age_secs : ℕ → ℕ → ℕ
age_secs now publish_time = (now + 500 - publish_time * 1000) / 1000

unfoldable pub age_text : ℕ → ℕ → String
unfolding age_secs
age_text now publish_time =
    if leb (publish_time * 1000) (now + 500)
    then to_decimal (age_secs now publish_time)
    else "-" <> to_decimal ((publish_time * 1000 + 499 - now) / 1000)

abbrev pub on_activity :
    MonitorConfig → MonitoredMarket → String → Outcome ActivityStatus → Outcome Verdict
on_activity c m age (thrown e) = thrown e
on_activity c m age (ok s) =
    if not s.active
    then ok (healthy (m.oracle_symbol <> "=idle (" <> age <> "s old, publishing suspended)"))
    else ok (
        problem (
          m.oracle_symbol
          <> " "
          <> age
          <> "s stale (max "
          <> to_decimal c.oracle_max_age_secs
          <> "s, active: "
          <> join "," s.reasons
          <> ")"))

abbrev pub on_published : MonitorConfig → MonitorAnswers → MonitoredMarket → ℕ → Outcome Verdict
on_published c a m zero = ok (problem (m.oracle_symbol <> " snapshot has no publish_time"))
on_published c a m (suc p) =
    let age = age_text (a.oracle_now m) (suc p) in
    if ltb c.oracle_max_age_secs (age_secs (a.oracle_now m) (suc p))
    then on_activity c m age (a.activity m)
    else ok (healthy (m.oracle_symbol <> "=" <> age <> "s old"))

abbrev pub or_zero : Option ℕ → ℕ
or_zero none = 0
or_zero (some n) = n

abbrev pub on_price :
    MonitorConfig → MonitorAnswers → MonitoredMarket → Outcome PriceSimulation → Outcome Verdict
on_price c a m (thrown e) = thrown e
on_price c a m (ok (sim_failed e)) =
    ok (problem (m.oracle_symbol <> " sim failed: " <> first_chars 60 e))
on_price c a m (ok no_value) = ok (problem (m.oracle_symbol <> " returned no value"))
on_price c a m (ok (snapshot published)) = on_published c a m (or_zero published)

unfoldable pub feed_verdict : MonitorConfig → MonitorAnswers → MonitoredMarket → Outcome Verdict
unfolding age_secs age_text first_chars
feed_verdict c a m = on_price c a m (a.get_price m)

abbrev pub feeds_text : MonitorConfig → Outcome (List String × List String) → Outcome String
feeds_text c (thrown e) = thrown e
feeds_text c (ok (results, [])) = ok (join ", " results)
feeds_text c (ok (results, p ∷ problems)) = thrown (
    to_decimal (length (p ∷ problems))
    <> "/"
    <> to_decimal (length c.markets)
    <> " feed(s) stale — "
    <> join "; " (p ∷ problems)
    <> (elim results [ [] ↦ "" | r ∷ rs ↦ " | healthy: " <> join ", " (r ∷ rs) ]))

unfoldable pub check_oracle_freshness : MonitorConfig → MonitorAnswers → Outcome String
unfolding collect feed_verdict
check_oracle_freshness c a = feeds_text c (collect (feed_verdict c a) c.markets)
