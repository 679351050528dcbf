-- ===== src/Monitor/Tests.antt =====
-- A monitor of one market, whose price was published at second 1000, under a limit of 110 seconds.
use kryon.Common.{
  get_key, set_key, delete_key, ℕ, ◌<◌, ◌+◌, ◌*◌, ◌≡◌, refl, inl, true, false, none, some, List, [],
  ◌∷◌, ◌++◌, ltb, str_eq, keep, to_decimal, inr, arith,
}
use kryon.Database.Exec.{ok, thrown}
use kryon.Monitor.{
  CheckResult, failing, still_failing, recovered, name_of, alert_reminder_ms, process_result,
  process_alerts, run_alerts, post_alerts, content, fmt_duration,
}
use kryon.Monitor.Watch.{watch_run}
use kryon.Monitor.Watched.{view, run_alerts-watched}
use kryon.Monitor.Checks.{MonitoredMarket, MonitorConfig, MonitorAnswers, snapshot, age_secs}
use kryon.Monitor.Round.{check_results}
use kryon.Monitor.Reminded.{HasAlerted}
use kryon.Monitor.Feeds.{IsFresh, stale_feed-alerted}

abbrev market : MonitoredMarket
market = record { market_id = 0; symbol = "XLM-USD"; oracle_symbol = "XLM" }

abbrev config : MonitorConfig
config = record {
  markets = market ∷ [];
  env = λ key. none;
  public_key = λ s. none;
  oracle_max_age_secs = 110;
  funding_stale_alert_secs = 3600;
  insurance_coverage_warn_bps = 2000;
  operator_xlm_warn = 25;
  less = ltb;
  to_fixed = λ digits n. "25.00";
  percent = λ bps. "20";
  number_text = λ n. "25";
}

-- The answers at second `now`, with the exchange active
abbrev answers_at : ℕ → MonitorAnswers
answers_at now = record {
  select_one_ms = ok 3;
  oracle_now = λ m. now * 1000;
  get_price = λ m. ok (snapshot (some 1000));
  activity = λ m. ok (record { active = true; reasons = "open-orders" ∷ [] });
  tables = ok (record { orders = []; fills = []; markets = []; jobs = []; accounts = [] });
  database_now = now * 1000;
  market_age = ok (some 5);
  health_status = ok 200;
  pong = ok tt;
  horizon = λ o. thrown "unreachable";
  funding_now = now * 1000;
  funding_state = λ m. ok (some (some 1000));
  insurance_coverage = λ m. ok none;
}

abbrev bad : CheckResult
bad = record { name = "websocket"; is_ok = false; detail = "WS open timeout" }

abbrev good : CheckResult
good = record { name = "websocket"; is_ok = true; detail = "connected + pong" }

-- It fails, fails again, fails an hour later and heals.
abbrev calls : List (ℕ × List CheckResult)
calls = (1000, bad ∷ []) ∷ (31000, bad ∷ []) ∷ (3601000, bad ∷ []) ∷ (3631000, good ∷ []) ∷ []

run_alerts-run : run_alerts calls [] ≡ (
  [],
  failing "websocket" "WS open timeout"
      ∷ still_failing "websocket" 1000 3601000 "WS open timeout"
      ∷ recovered "websocket" 1000 3631000 "connected + pong"
      ∷ [],
)
unfolding run_alerts process_alerts process_result get_key set_key delete_key alert_reminder_ms
run_alerts-run = refl

post_alerts-run :
    post_alerts
      (some "https://hook")
      (still_failing "websocket" 1000 3601000 "WS open timeout" ∷ [])
    ≡ "🔁 **Kryon websocket** still failing after 1h0m: WS open timeout" ∷ []
unfolding post_alerts content fmt_duration to_decimal
post_alerts-run = refl

run_alerts-watched_example :
    let (states, alerts) = run_alerts calls [] in
    let (outage, watched) = watch_run "websocket" calls none in
    (view (get_key "websocket" states) ≡ outage)
    × (keep (λ a. str_eq (name_of a) "websocket") alerts ≡ watched)
run_alerts-watched_example = run_alerts-watched "websocket" calls

-- At second 1200 the price is 200 seconds old.
market_is_stale : IsFresh config (answers_at 1200) market → ⊥
unfolding age_secs
market_is_stale f = elim f.in_time [
  | inl le ↦ let e : ◌≡◌ {A = ℕ} 1000 f.publish_time = cc f.answered in omega (arith, e, le)
  | inr (s, e, off) ↦ ground (arith, e, off)
]

stale_feed-alerted_example :
    (time : ℕ) × (1200000 < time + alert_reminder_ms)
    × HasAlerted "https://hook" "oracle-freshness"
        (((1100000, check_results config (answers_at 1100)) ∷ [])
          ++ (1200000, check_results config (answers_at 1200)) ∷ [])
        time
stale_feed-alerted_example =
    stale_feed-alerted config (answers_at 1200) "https://hook"
      ((1100000, check_results config (answers_at 1100)) ∷ []) 1200000 market refl (inl refl)
      market_is_stale
