-- ===== src/Matcher/Loading.antt =====
-- The queries of client/scripts/matcher-service.ts.
use kryon.Common.{
  ℕ, Bool, not, ◌&&◌, ◌||◌, Option, none, some, List, map, ltb, leb, ◌==◌, if◌then◌else◌, keep,
  find, any,
}
use kryon.Matcher.Order.{RestingOrder}
use kryon.Matcher.Sort.{sort, best_ask_first}
use kryon.Database.{OrderRow, MarketRow, Db}
use kryon.Database.Exec.{Exec, sql, sql_at}

unfoldable pub map_order_row : OrderRow → RestingOrder
map_order_row r = record {
  id = r.id;
  owner = r.owner;
  market_id = r.market_id;
  is_long = r.is_long;
  size = r.size;
  limit_price = r.limit_price;
  reduce_only = r.reduce_only;
  nonce = r.nonce;
  expiry_ts = r.expiry_ts;
  filled_size = r.filled_size;
  created_at = r.created_at;
  signature = r.signature;
}

-- The conditions that the two loading queries share.
unfoldable pub is_open : ℕ → ℕ → OrderRow → Bool
is_open market_id now r =
    r.market_id == market_id
    && not r.cancelled
    && ltb r.filled_size r.size
    && (r.expiry_ts == 0 || ltb now r.expiry_ts)

unfoldable pub oldest_first : RestingOrder → RestingOrder → Bool
oldest_first a b = leb a.created_at b.created_at

-- Rows that tie under `ORDER BY` keep their order in the table.
unfoldable pub resting_orders : ℕ → ℕ → Db → List RestingOrder
unfolding is_open
resting_orders market_id now db =
    sort best_ask_first (
      map map_order_row (keep (λ r. is_open market_id now r && not (r.limit_price == 0)) db.orders))

unfoldable pub market_orders : ℕ → ℕ → Db → List RestingOrder
unfolding is_open
market_orders market_id now db =
    sort oldest_first
      (map map_order_row (keep (λ r. is_open market_id now r && r.limit_price == 0) db.orders))

unfoldable pub load_resting_orders : ℕ → Exec (List RestingOrder)
load_resting_orders market_id = sql_at (λ now db. (resting_orders market_id now db, db))

unfoldable pub load_market_orders : ℕ → Exec (List RestingOrder)
load_market_orders market_id = sql_at (λ now db. (market_orders market_id now db, db))

abbrev positive : Option ℕ → Option ℕ
positive none = none
positive (some p) = if p == 0 then none else some p

abbrev column : Option MarketRow → Option ℕ
column none = none
column (some m) = m.last_oracle_price

unfoldable pub load_oracle_price : ℕ → Exec (Option ℕ)
load_oracle_price market_id =
    sql (λ db. (positive (column (find (λ m. m.id == market_id) db.markets)), db))

-- The markets of the service with an open order, by the condition of the probe.
unfoldable pub has_open_order : ℕ → ℕ → Db → Bool
has_open_order now market_id db =
    any
      (λ (r : OrderRow).
        r.market_id == market_id
        && not r.cancelled
        && ltb r.filled_size r.size
        && ltb now r.expiry_ts)
      db.orders

unfoldable pub markets_with_open_orders : List ℕ → Exec (List ℕ)
markets_with_open_orders ids = sql_at (λ now db. (keep (λ id. has_open_order now id db) ids, db))
