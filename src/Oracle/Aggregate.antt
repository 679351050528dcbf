-- ===== src/Oracle/Aggregate.antt =====
-- The sources of a price and their median: `binancePrice`, `coinbasePrice`, `krakenPrice` and `aggregatePrice` of
-- client/scripts/oracle-keeper.ts.
pub mod Ranked
pub mod Sourced
use kryon.Common.{
  ℕ, zero, suc, ◌+◌, ◌-◌, ◌/◌, ◌%◌, String, ◌<>◌, Bool, true, false, Option, none, some, List, [],
  ◌∷◌, length, ltb, leb, ◌==◌, str_eq, if◌then◌else◌,
}
use kryon.Database.Exec.{Outcome, ok, thrown}
use kryon.Matcher.Sort.{sort}
use kryon.Oracle.{Doubles, OracleConfig, price_precision, ledger_safe_publish_time}

-- What `parseFloat` makes of an answer: a positive finite double, or something else.
pub data Reading : Type 0 where
  usable : ℕ → Reading
  bad : Reading

abbrev positive_price : String → Reading → Outcome ℕ
positive_price e (usable p) = ok p
positive_price e bad = thrown e

-- What `fetchJson` gives for a source, with the field of the price read, or throws.
abbrev and_read : String → Outcome Reading → Outcome ℕ
and_read e (ok r) = positive_price e r
and_read e (thrown f) = thrown f

unfoldable pub binance_price : Outcome Reading → Outcome ℕ
binance_price = and_read "binance: bad price"

unfoldable pub coinbase_price : Outcome Reading → Outcome ℕ
coinbase_price = and_read "coinbase: bad price"

-- The first error that an answer of Kraken reports, if any, and its reading
pub record KrakenAnswer : Type 0 where
  pub error : Option String
  pub reading : Reading

abbrev kraken_checked : Option String → Reading → Outcome ℕ
kraken_checked (some e) r = thrown ("kraken: " <> e)
kraken_checked none r = positive_price "kraken: bad price" r

unfoldable pub kraken_price : Outcome KrakenAnswer → Outcome ℕ
kraken_price (ok a) = kraken_checked a.error a.reading
kraken_price (thrown f) = thrown f

unfoldable pub kraken_pair : String → String
kraken_pair base_asset = (if str_eq base_asset "BTC" then "XBT" else base_asset) <> "USD"

pub record AggregatedPrice : Type 0 where
  pub price : ℕ
  pub confidence : ℕ
  pub publish_time : ℕ
  pub sources : ℕ

-- The values of the sources that answered
unfoldable pub fulfilled : List (Outcome ℕ) → List ℕ
fulfilled [] = []
fulfilled (ok p ∷ rest) = p ∷ fulfilled rest
fulfilled (thrown e ∷ rest) = fulfilled rest

-- `prices[i]`, within the list
unfoldable pub get_or : List ℕ → ℕ → ℕ → ℕ
get_or [] i d = d
get_or (x ∷ xs) zero d = x
get_or (x ∷ xs) (suc i) d = get_or xs i d

unfoldable pub median : Doubles → List ℕ → ℕ
unfolding get_or
median f prices =
    let n = length prices in
    if n % 2 == 1
    then get_or prices ((n - 1) / 2) 0
    else f.over (f.plus (get_or prices (n / 2 - 1) 0) (get_or prices (n / 2) 0)) (f.double 2)

unfoldable pub spread_bps : Doubles → ℕ → ℕ → ℕ
spread_bps f low high = f.times (f.over (f.minus high low) low) (f.double 10000)

unfoldable pub spread_confidence : Doubles → ℕ → ℕ → ℕ
spread_confidence f low high =
    f.times (f.over (f.minus high low) (f.double 2)) (f.double price_precision)

-- The record of a rounded price and a rounded confidence
abbrev pub with_confidence : ℕ → ℕ → ℕ → Outcome ℕ → Outcome (Option AggregatedPrice)
with_confidence time sources price (thrown e) = thrown e
with_confidence time sources price (ok spread) = ok (
    some (record {
      price = price;
      confidence = if ltb (price / 1000) spread then spread else price / 1000;
      publish_time = time;
      sources = sources;
    }))

abbrev pub with_price : OracleConfig → ℕ → List ℕ → ℕ → Outcome ℕ → Outcome (Option AggregatedPrice)
with_price c now prices spread (thrown e) = thrown e
with_price c now prices spread (ok price) =
    with_confidence (ledger_safe_publish_time c now) (length prices) price
      (c.doubles.rounded spread)

-- The rest of `aggregatePrice` for the prices in order. Of no prices the median is no number.
unfoldable pub aggregate_sorted : OracleConfig → ℕ → List ℕ → Outcome (Option AggregatedPrice)
aggregate_sorted c now [] = if 0 == c.min_sources then thrown "RangeError" else ok none
aggregate_sorted c now (low ∷ rest) =
    let prices = low ∷ rest in
    let high = get_or prices (length rest) 0 in
    if ltb (length prices) c.min_sources
    then ok none
    else if ltb c.max_source_deviation_bps (spread_bps c.doubles low high)
    then ok none
    else with_price c now prices (spread_confidence c.doubles low high) (
        c.doubles.rounded
          (c.doubles.times (median c.doubles prices) (c.doubles.double price_precision)))

unfoldable pub aggregate_price :
    OracleConfig → ℕ → List (Outcome ℕ) → Outcome (Option AggregatedPrice)
unfolding fulfilled aggregate_sorted
aggregate_price c now settled = aggregate_sorted c now (sort leb (fulfilled settled))
