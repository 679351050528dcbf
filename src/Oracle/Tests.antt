-- ===== src/Oracle/Tests.antt =====
-- An oracle keeper with three sources for one market, two for a stable coin, and an exchange at rest.
use kryon.Common.{
  ◌^◌, ◌+◌, ◌-◌, ◌*◌, ◌/◌, ◌≤◌, ◌≡◌, refl, ◌⊎◌, true, false, none, some, [], ◌∷◌, arith, any,
}
use kryon.Matcher.Fills.RoundTrip.{calm}
use kryon.Matcher.Sort.{sort}
use kryon.Matcher.Tests.{tables, limits}
use kryon.Database.Exec.{World, ok, thrown, try_catch, sql_at, call}
use kryon.Oracle.{Doubles, OracleConfig, OracleMarket, ledger_safe_publish_time}
use kryon.Oracle.Aggregate.{
  AggregatedPrice, fulfilled, usable, aggregate_price, binance_price, coinbase_price, kraken_price,
  median, spread_bps, spread_confidence, get_or,
}
use kryon.Oracle.Aggregate.Sourced.{IsAggregate, aggregate_price-IsAggregate}
use kryon.Oracle.Publish.{
  PriceWrite, OracleState, MarketAnswers, StableAnswers, publish_stable, market_sources,
}
use kryon.Oracle.Publish.Safe.{IsStableWrite, publish_stable-writes}
use kryon.Oracle.Activity.{ActivityConfig, check_protocol_activity}
use kryon.Oracle.Idle.{IdleState, boot, is_publishing_needed}
use kryon.Oracle.Idle.Suspended.{booted, latest_check, WasQuiet, Run-suspended}

-- Whole dollars in place of doubles
abbrev doubles : Doubles
doubles = record {
  plus = λ a b. a + b;
  minus = λ a b. a - b;
  times = λ a b. a * b;
  over = λ a b. a / b;
  double = λ n. n;
  rounded = λ n. ok n;
}

abbrev config : OracleConfig
config = record {
  doubles = doubles;
  publish_deviation_bps = 10;
  publish_heartbeat_secs = 240;
  stable_deviation_bps = 25;
  stable_heartbeat_secs = 240;
  min_sources = 2;
  max_source_deviation_bps = 100;
  reflector_guard_enabled = true;
  reflector_divergence_halt_bps = 300;
  reflector_max_age_secs = 900;
  publish_time_backdate_secs = 10;
  activity_check_interval_ms = 60000;
  idle_grace_secs = 300;
  dry_run = false;
  is_mainnet = true;
}

abbrev btc : OracleMarket
btc = record {
  oracle_symbol = "BTC";
  base_asset = "BTC";
  price_source_symbol = "BTCUSDT";
  reflector_symbol = some "BTC";
}

-- Kraken does not answer, and Reflector has no round.
abbrev market_answers : MarketAnswers
market_answers = record {
  now = 1000000;
  binance = ok (usable 60001);
  coinbase = ok (usable 60003);
  kraken = thrown "HTTP 520";
  reflector = ok none;
  written = ok true;
  confirmed_at = 1006000;
}

abbrev stable_answers : StableAnswers
stable_answers = record {
  now = 1000000;
  coinbase = ok (usable 1);
  kraken = ok (record { error = none; reading = usable 1 });
  written = ok true;
  confirmed_at = 1006000;
}

abbrev start : OracleState
start = record { last_published = []; writes = [] }

abbrev agg : AggregatedPrice
agg = record {
  price = 60002000000000000000000;
  confidence = 60002000000000000000;
  publish_time = 990;
  sources = 2;
}

sourced : aggregate_price config 1000000 (market_sources market_answers) ≡ ok (some agg)
unfolding aggregate_price market_sources sort binance_price coinbase_price kraken_price spread_bps
    get_or median ledger_safe_publish_time spread_confidence
sourced = refl

aggregate_price-IsAggregate_example :
    IsAggregate config 1000000 (fulfilled (market_sources market_answers)) agg
aggregate_price-IsAggregate_example =
    aggregate_price-IsAggregate config 1000000 (market_sources market_answers) agg sourced

-- The keeper has published a lower price ten seconds before.
abbrev known : OracleState
known = record {
  last_published = ("BTC", record { price = 59000 * 10 ^ 18; ts = 990000 }) ∷ [];
  writes = [];
}

publish_stable-writes_example :
    ((publish_stable config "USDC" 200 stable_answers start).writes ≡ start.writes)
    ⊎ ((w : PriceWrite) × ((publish_stable config "USDC" 200 stable_answers start).writes
          ≡ w ∷ start.writes)
        × IsStableWrite config "USDC" 200 stable_answers w)
publish_stable-writes_example = publish_stable-writes config "USDC" 200 stable_answers start

-- No position and no deposit
abbrev at_rest : ActivityConfig
at_rest = record { open_position = λ w. ok false; total_deposited = λ w. ok 0 }

-- No order, no job, 400 seconds after the clock's start
abbrev later : World
later = calm (tables limits []) 400

-- A keeper that booted at second 50 has no need to publish.
abbrev suspended : IdleState
suspended = record {
  last_activity_check = 400000;
  last_active_at = 50000;
  cached_reasons = [];
  idle_logged = true;
}

is_suspended : (is_publishing_needed config at_rest (boot 50000) later).0 ≡ ok (false, suspended)
unfolding is_publishing_needed boot check_protocol_activity try_catch sql_at call any
is_suspended = refl

Run-suspended_example :
    (x : World) × (latest_check config (boot 50000) none later ≡ some x)
    × (400000 ≤ x.now * 1000 + x.millis + 60000)
    × WasQuiet at_rest x
Run-suspended_example =
    Run-suspended config at_rest (boot 50000) suspended none later (booted 50000) (omega arith)
      (omega arith) is_suspended
