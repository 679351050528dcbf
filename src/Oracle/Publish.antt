-- ===== src/Oracle/Publish.antt =====
-- `shouldPublish`, `publishMarket`, `publishStable` and `tickInner` of client/scripts/oracle-keeper.ts.
pub mod Due
pub mod Safe
use kryon.Common.{
  ℕ, ◌+◌, ◌-◌, ◌*◌, ◌/◌, String, Bool, true, false, not, Option, none, some, List, [], ◌∷◌, ◌++◌,
  ltb, leb, str_eq, if◌then◌else◌,
}
use kryon.Database.Exec.{Outcome, ok, thrown}
use kryon.Oracle.{OracleConfig, OracleMarket, price_precision, ledger_safe_publish_time}
use kryon.Oracle.Aggregate.{
  Reading, KrakenAnswer, AggregatedPrice, binance_price, coinbase_price, kraken_price,
  aggregate_price,
}
use kryon.Oracle.Reflector.{ReflectorData, reflector_last_price, reflector_allows_publish}

-- The last price that was published of an asset, and when, in milliseconds
pub record Published : Type 0 where
  pub price : ℕ
  pub ts : ℕ

-- A transaction that the keeper asks the network to write
pub record PriceWrite : Type 0 where
  pub symbol : String
  pub price : ℕ
  pub confidence : ℕ
  pub publish_time : ℕ

-- The map `lastPublished`, and what was submitted, the latest first
pub record OracleState : Type 0 where
  pub last_published : List (String × Published)
  pub writes : List PriceWrite

unfoldable pub last_of : String → List (String × Published) → Option Published
last_of asset [] = none
last_of asset ((a, p) ∷ rest) = if str_eq a asset then some p else last_of asset rest

unfoldable pub set_last : String → Published → List (String × Published) → List (String × Published)
set_last asset p [] = (asset, p) ∷ []
set_last asset p ((a, q) ∷ rest) =
    if str_eq a asset then (a, p) ∷ rest else (a, q) ∷ set_last asset p rest

-- A division by a last price of 0 throws.
abbrev pub moved_enough : ℕ → Published → ℕ → ℕ → ℕ → Outcome Bool
moved_enough now last price deviation_bps heartbeat_secs =
    let diff = if ltb last.price price then price - last.price else last.price - price in
    if leb (last.ts + heartbeat_secs * 1000) now
    then ok true
    else if leb last.price 0
    then thrown "RangeError"
    else ok (leb deviation_bps (diff * 10000 / last.price))

abbrev pub should_publish_after : ℕ → ℕ → ℕ → ℕ → Option Published → Outcome Bool
should_publish_after now price deviation_bps heartbeat_secs none = ok true
should_publish_after now price deviation_bps heartbeat_secs (some last) =
    moved_enough now last price deviation_bps heartbeat_secs

unfoldable pub should_publish : OracleState → ℕ → String → ℕ → ℕ → ℕ → Outcome Bool
should_publish s now asset price deviation_bps heartbeat_secs =
    should_publish_after now price deviation_bps heartbeat_secs (last_of asset s.last_published)

-- The call of `writePrice`, which answers whether the network confirmed the transaction, or throws.
abbrev after_write : ℕ → PriceWrite → OracleState → Outcome Bool → OracleState
after_write now w s (thrown e) = s
after_write now w s (ok false) = s
after_write now w s (ok true) = record s {
  last_published = set_last w.symbol (record { price = w.price; ts = now }) s.last_published;
}

unfoldable pub write_price : ℕ → PriceWrite → Outcome Bool → OracleState → OracleState
unfolding set_last
write_price now w written s = after_write now w (record s { writes = w ∷ s.writes }) written

abbrev write_if : ℕ → PriceWrite → Outcome Bool → OracleState → Outcome Bool → OracleState
write_if now w written s (thrown e) = s
write_if now w written s (ok false) = s
write_if now w written s (ok true) = write_price now w written s

-- What the world answers in one call of `publishMarket`: the clock, which stands still up to the transaction, the
-- three sources, Reflector, `writePrice`, and the clock after it.
pub record MarketAnswers : Type 0 where
  pub now : ℕ
  pub binance : Outcome Reading
  pub coinbase : Outcome Reading
  pub kraken : Outcome KrakenAnswer
  pub reflector : Outcome (Option ReflectorData)
  pub written : Outcome Bool
  pub confirmed_at : ℕ

unfoldable pub market_sources : MarketAnswers → List (Outcome ℕ)
market_sources a = binance_price a.binance ∷ coinbase_price a.coinbase ∷ kraken_price a.kraken ∷ []

unfoldable pub market_write : String → AggregatedPrice → PriceWrite
market_write symbol agg = record {
  symbol = symbol;
  price = agg.price;
  confidence = agg.confidence;
  publish_time = agg.publish_time;
}

unfoldable pub publish_aggregated :
    OracleConfig → OracleMarket → MarketAnswers → OracleState → AggregatedPrice → OracleState
unfolding should_publish last_of market_write
publish_aggregated c market a s agg =
    let allowed =
      reflector_allows_publish c a.now market agg.price (reflector_last_price a.reflector) in
    if c.dry_run
    then s
    else if not allowed
    then s
    else write_if a.confirmed_at (market_write market.oracle_symbol agg) a.written s (
        should_publish s a.now market.oracle_symbol agg.price c.publish_deviation_bps
          c.publish_heartbeat_secs)

abbrev if_aggregated :
    OracleConfig
    → OracleMarket
    → MarketAnswers
    → OracleState
    → Outcome (Option AggregatedPrice)
    → OracleState
if_aggregated c market a s (thrown e) = s
if_aggregated c market a s (ok none) = s
if_aggregated c market a s (ok (some agg)) = publish_aggregated c market a s agg

unfoldable pub publish_market :
    OracleConfig → OracleMarket → MarketAnswers → OracleState → OracleState
publish_market c market a s =
    if_aggregated c market a s (aggregate_price c a.now (market_sources a))

-- What the world answers in one call of `publishStable`
pub record StableAnswers : Type 0 where
  pub now : ℕ
  pub coinbase : Outcome Reading
  pub kraken : Outcome KrakenAnswer
  pub written : Outcome Bool
  pub confirmed_at : ℕ

unfoldable pub stable_sources : StableAnswers → List (Outcome ℕ)
stable_sources a = coinbase_price a.coinbase ∷ kraken_price a.kraken ∷ []

unfoldable pub peg_deviation_bps : ℕ → ℕ
peg_deviation_bps price =
    (if ltb price_precision price then price - price_precision else price_precision - price)
    * 10000
    / price_precision

unfoldable pub publish_price :
    OracleConfig → String → StableAnswers → OracleState → ℕ → ℕ → OracleState
unfolding should_publish last_of
publish_price c symbol a s price confidence =
    let w : PriceWrite = record {
      symbol = symbol;
      price = price;
      confidence = confidence;
      publish_time = ledger_safe_publish_time c a.now;
    } in
    if c.dry_run
    then s
    else write_if a.confirmed_at w a.written s
        (should_publish s a.now symbol price c.stable_deviation_bps c.stable_heartbeat_secs)

-- The choice between the sourced price and, off mainnet, the peg
abbrev publish_sourced :
    OracleConfig
    → String
    → ℕ
    → StableAnswers
    → OracleState
    → Outcome (Option AggregatedPrice)
    → OracleState
publish_sourced c symbol halt_bps a s (thrown e) = s
publish_sourced c symbol halt_bps a s (ok none) =
    if c.is_mainnet then s else publish_price c symbol a s price_precision (price_precision / 1000)
publish_sourced c symbol halt_bps a s (ok (some agg)) =
    if ltb halt_bps (peg_deviation_bps agg.price)
    then s
    else publish_price c symbol a s agg.price agg.confidence

unfoldable pub publish_stable :
    OracleConfig → String → ℕ → StableAnswers → OracleState → OracleState
publish_stable c symbol halt_bps a s =
    publish_sourced c symbol halt_bps a s (aggregate_price c a.now (stable_sources a))

-- What a tick is told: of each market, of USDC, and of USDT0 where that is published, with the limits of the two.
pub record TickAnswers : Type 0 where
  pub markets : List (OracleMarket × MarketAnswers)
  pub usdc : StableAnswers
  pub usdc_halt_bps : ℕ
  pub usdt0 : Option StableAnswers
  pub usdt0_halt_bps : ℕ

unfoldable pub publish_markets :
    OracleConfig → List (OracleMarket × MarketAnswers) → OracleState → OracleState
publish_markets c [] s = s
publish_markets c ((market, a) ∷ rest) s = publish_markets c rest (publish_market c market a s)

abbrev publish_usdt0 : OracleConfig → ℕ → Option StableAnswers → OracleState → OracleState
publish_usdt0 c halt_bps none s = s
publish_usdt0 c halt_bps (some a) s = publish_stable c "USDT0" halt_bps a s

unfoldable pub tick_inner : OracleConfig → TickAnswers → OracleState → OracleState
tick_inner c a s =
    publish_usdt0 c a.usdt0_halt_bps a.usdt0
      (publish_stable c "USDC" a.usdc_halt_bps a.usdc (publish_markets c a.markets s))
