-- ===== src/Matcher/Tick.antt =====
-- `tick` of client/scripts/matcher-service.ts, with the oracle band and the quarantine of orders whose
-- signature cannot verify.
use kryon.Common.{
  ℕ, ◌+◌, ◌-◌, ◌*◌, ◌/◌, String, ◌<>◌, Bool, true, false, not, ◌&&◌, ◌||◌, Option, none, some, List,
  [], ◌∷◌, leb, str_eq, if◌then◌else◌, keep, update_where,
}
use kryon.Signing.{OrderPayload, order_settlement_message}
use kryon.Matcher.Order.{RestingOrder, MatchResult}
use kryon.Matcher.Hash.{pseudo_tx_hash}
use kryon.Matcher.Book.{match_all}
use kryon.Matcher.Config.{Config}
use kryon.Matcher.Loading.{
  load_resting_orders, load_market_orders, load_oracle_price, markets_with_open_orders,
}
use kryon.Matcher.Fills.{persist_fill, rollback_fill}
use kryon.Matcher.Settlement.{execute_settlement, record_settlement_failure}
use kryon.Database.{Db}
use kryon.Database.Exec.{Exec, pure, sql, try_catch, sum_await, ◌>>=◌, ◌>>◌}

-- `oracle - delta` is not negative while the deviation is at most 10,000 bps; above, every price passes
-- the lower bound, as a price is not negative.
unfoldable pub within_oracle_band : ℕ → ℕ → ℕ → Bool
within_oracle_band max_deviation_bps fill_price oracle =
    let delta = oracle * max_deviation_bps / 10_000 in
    leb (oracle - delta) fill_price && leb fill_price (oracle + delta)

abbrev pub payload_of : RestingOrder → OrderPayload
payload_of o = record {
  owner = o.owner;
  market_id = o.market_id;
  is_long = o.is_long;
  size = o.size;
  limit_price = o.limit_price;
  reduce_only = o.reduce_only;
  nonce = o.nonce;
  expiry_ts = o.expiry_ts;
}

abbrev verified : Config → RestingOrder → Option String → Bool
verified c o none = true
verified c o (some signature) =
    if str_eq signature ""
    then true
    else c.verify_signed_message o.owner
        (order_settlement_message c.passphrase (c.pubkey_hex_from_address o.owner) (payload_of o))
        signature

unfoldable pub settlement_sig_valid : Config → RestingOrder → Bool
settlement_sig_valid c o = verified c o o.signature

unfoldable pub cancel_order : String → Db → Unit {0} × Db
cancel_order id db = (
  tt,
  record db {
    orders = update_where (λ r. str_eq r.id id) (λ r. record r { cancelled = true }) db.orders;
  },
)

unfoldable pub cancel_poison_order : RestingOrder → Exec (Unit {0})
unfolding cancel_order
cancel_poison_order o = sql (cancel_order o.id)

-- One side of the loop over `[match.maker, match.taker]`: whether it was poisoned.
unfoldable pub quarantine : Config → RestingOrder → Exec Bool
unfolding ◌>>=◌
quarantine c o =
    if settlement_sig_valid c o then pure false else do cancel_poison_order o; pure true

-- The attempt to settle a fill that was persisted, rolled back if it does not succeed.
unfoldable pub settle_or_rollback : Config → MatchResult → Exec (Unit {0})
unfolding ◌>>=◌
settle_or_rollback c m =
    try_catch
      (do settled ← execute_settlement c m; if settled then pure tt else rollback_fill c.network m)
      (λ e. do
        record_settlement_failure c.network (pseudo_tx_hash m.maker m.taker m.fill_size)
            ("executeSettlement threw: " <> e)
        rollback_fill c.network m)

unfoldable pub in_band : Config → Option ℕ → ℕ → Bool
in_band c none price = false
in_band c (some oracle) price = within_oracle_band c.max_deviation_bps price oracle

-- The body of the loop over the matches; 1 if the fill was persisted.
unfoldable pub process_match : Config → Option ℕ → MatchResult → Exec ℕ
unfolding ◌>>=◌
process_match c oracle m = if not (in_band c oracle m.fill_price) then pure 0 else do
  maker_poisoned ← quarantine c m.maker
  taker_poisoned ← quarantine c m.taker
  if maker_poisoned || taker_poisoned then pure 0 else do
    persisted ← persist_fill c.network m
    if persisted then (do settle_or_rollback c m; pure 1) else pure 0

unfoldable pub matches_of :
    Config → Option ℕ → List RestingOrder → List RestingOrder → List MatchResult
matches_of c oracle limits markets =
    match_all (keep (λ o. in_band c oracle o.limit_price) limits) markets

abbrev is_empty : List RestingOrder → Bool
is_empty [] = true
is_empty (o ∷ os) = false

unfoldable pub tick_market : Config → ℕ → Exec ℕ
unfolding ◌>>=◌
tick_market c market_id = do
  limits ← load_resting_orders market_id
  markets ← load_market_orders market_id
  if is_empty limits && is_empty markets then pure 0 else do
    oracle ← load_oracle_price market_id
    sum_await (process_match c oracle) (matches_of c oracle limits markets)

unfoldable pub tick : Config → Exec ℕ
unfolding ◌>>=◌
tick c = do active ← markets_with_open_orders c.markets; sum_await (tick_market c) active
