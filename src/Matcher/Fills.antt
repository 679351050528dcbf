-- ===== src/Matcher/Fills.antt =====
-- `persistFill` and `rollbackFill` of client/scripts/matcher-service.ts.
pub mod Sizes
pub mod Stranded
pub mod RoundTrip
use kryon.Common.{
  ℕ, ◌+◌, ◌-◌, ◌*◌, ◌/◌, ◌^◌, String, Bool, true, false, not, ◌&&◌, List, [], ◌∷◌, ◌++◌, ltb, leb,
  ◌==◌, str_eq, if◌then◌else◌, keep, any, update_where,
}
use kryon.Matcher.Order.{RestingOrder, MatchResult}
use kryon.Matcher.Hash.{pseudo_tx_hash}
use kryon.Database.{OrderRow, FillRow, MarketRow, Db}
use kryon.Database.Orders.{raise_filled, lower_filled}
use kryon.Database.Exec.{Exec, pure, sql, try_catch, ◌>>=◌, ◌>>◌}

abbrev pub price_precision : ℕ
price_precision = 10 ^ 18

unfoldable pub fill_value : MatchResult → ℕ
fill_value m = m.fill_size * m.fill_price / price_precision

unfoldable pub fill_row : String → MatchResult → FillRow
fill_row network m = record {
  network = network;
  market_id = m.maker.market_id;
  maker = m.maker.owner;
  maker_nonce = m.maker.nonce;
  taker = m.taker.owner;
  taker_nonce = m.taker.nonce;
  fill_size = m.fill_size;
  fill_price = m.fill_price;
  tx_hash = pseudo_tx_hash m.maker m.taker m.fill_size;
  ledger = 0;
}

-- The unique key (network, txHash, maker, makerNonce, taker, takerNonce).
unfoldable pub same_fill : FillRow → FillRow → Bool
same_fill a b =
    str_eq a.network b.network
    && str_eq a.tx_hash b.tx_hash
    && str_eq a.maker b.maker
    && a.maker_nonce == b.maker_nonce
    && str_eq a.taker b.taker
    && a.taker_nonce == b.taker_nonce

-- `INSERT … ON CONFLICT … DO NOTHING RETURNING id`, whether a row came back
unfoldable pub insert_fill : FillRow → Db → Bool × Db
insert_fill f db =
    if any (same_fill f) db.fills
    then (false, db)
    else (true, record db { fills = db.fills ++ f ∷ [] })

-- `DELETE FROM "Fill" WHERE network = … AND "txHash" = …`
unfoldable pub has_hash : String → String → FillRow → Bool
has_hash network hash f = str_eq f.network network && str_eq f.tx_hash hash

unfoldable pub delete_fill : String → String → Db → Unit {0} × Db
unfolding has_hash
delete_fill network hash db =
    (tt, record db { fills = keep (λ f. not (has_hash network hash f)) db.fills })

unfoldable pub set_market : ℕ → (MarketRow → MarketRow) → Db → Unit {0} × Db
set_market id f db = (tt, record db { markets = update_where (λ m. m.id == id) f db.markets })

unfoldable pub add_volume : ℕ → ℕ → MarketRow → MarketRow
add_volume price value m = record m { last_price = price; volume = m.volume + value }

-- `GREATEST(0, volume - value)`
unfoldable pub take_volume : ℕ → MarketRow → MarketRow
take_volume value m = record m { volume = m.volume - value }

unfoldable pub persist_fill : String → MatchResult → Exec Bool
unfolding ◌>>=◌
persist_fill network m =
    try_catch
      (do
        inserted ← sql (insert_fill (fill_row network m))
        if not inserted then pure false else do
          maker_updated ← sql (raise_filled m.maker.id m.fill_size)
          if not maker_updated then pure false else do
            taker_updated ← sql (raise_filled m.taker.id m.fill_size)
            if not taker_updated then pure false else do
              sql (set_market m.maker.market_id (add_volume m.fill_price (fill_value m)))
              pure true)
      (λ e. pure false)

unfoldable pub rollback_fill : String → MatchResult → Exec (Unit {0})
unfolding ◌>>=◌
rollback_fill network m =
    try_catch
      (do
        sql (delete_fill network (pseudo_tx_hash m.maker m.taker m.fill_size))
        sql (set_market m.maker.market_id (take_volume (fill_value m)))
        sql (lower_filled m.maker.id m.fill_size)
        sql (lower_filled m.taker.id m.fill_size))
      (λ e. pure tt)
