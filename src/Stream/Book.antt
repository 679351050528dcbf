-- ===== src/Stream/Book.antt =====
-- `fetchOrderBook` of client/scripts/ws-server.ts, and the same query and levels in
-- client/app/api/markets/[id]/orderbook/route.ts: the book that the public sees.
pub mod Levels
pub mod Offered
use kryon.Common.{
  ℕ, ◌≡◌, ◌↔◌, refl, sym, ap, subst, ◌⊎◌, inl, inr, String, Bool, true, false, not, ◌&&◌, ◌||◌,
  List, [], ◌∷◌, map, ◌==◌, ltb, leb, str_eq, if◌then◌else◌, keep, arith, eq_iff, Bool-cases, In,
  In-keep, keep-In,
}
use kryon.Database.{OrderRow, Db}
use kryon.Matcher.Order.{RestingOrder}
use kryon.Matcher.Sort.{sort, sort-In, In-sort}
use kryon.Matcher.Loading.{map_order_row, is_open, resting_orders}

-- The arithmetic of doubles and their texts: the price in dollars with four places, what remains of an order, the
-- sum of two amounts, an amount with four places, and whether the first of two prices is the lower one or level.
pub record BookNumbers : Type 0 where
  pub price_human : ℕ → String
  pub remaining : ℕ → ℕ → ℕ
  pub plus : ℕ → ℕ → ℕ
  pub size_text : ℕ → String
  pub is_lower : String → String → Bool

pub record OrderBookLevel : Type 0 where
  pub price : String
  pub size : String

pub record OrderBookSnapshot : Type 0 where
  pub bids : List OrderBookLevel
  pub asks : List OrderBookLevel

-- The WHERE of the query
unfoldable pub is_listed : ℕ → ℕ → OrderRow → Bool
is_listed market_id now r =
    r.market_id == market_id
    && not r.cancelled
    && not (r.limit_price == 0)
    && ltb r.filled_size r.size
    && (r.expiry_ts == 0 || ltb now r.expiry_ts)

unfoldable pub book_rows : ℕ → ℕ → Db → List OrderRow
unfolding is_listed
book_rows market_id now db =
    sort (λ a b. leb a.limit_price b.limit_price) (keep (is_listed market_id now) db.orders)

-- `map.set(price, (map.get(price) ?? 0) + size)`
unfoldable pub add_level : BookNumbers → String → ℕ → List (String × ℕ) → List (String × ℕ)
add_level f price size [] = (price, f.plus 0 size) ∷ []
add_level f price size ((p, s) ∷ rest) =
    let others = add_level f price size rest in
    if str_eq p price then (p, f.plus s size) ∷ rest else (p, s) ∷ others

-- The levels of one side after the rows, from levels that are there
unfoldable pub add_rows : BookNumbers → Bool → List OrderRow → List (String × ℕ) → List (String × ℕ)
unfolding add_level
add_rows f is_long [] levels = levels
add_rows f is_long (r ∷ rest) levels =
    let more = add_rows f is_long rest in
    if (if r.is_long then is_long else not is_long)
    then more (add_level f (f.price_human r.limit_price) (f.remaining r.size r.filled_size) levels)
    else more levels

abbrev pub level_of : BookNumbers → String × ℕ → OrderBookLevel
level_of f (price, size) = record { price = price; size = f.size_text size }

unfoldable pub order_book : BookNumbers → ℕ → ℕ → Db → OrderBookSnapshot
unfolding add_rows book_rows
order_book f market_id now db =
    let rows = book_rows market_id now db in
    record {
      bids = map (level_of f) (sort (λ a b. f.is_lower b.0 a.0) (add_rows f true rows []));
      asks = map (level_of f) (sort (λ a b. f.is_lower a.0 b.0) (add_rows f false rows []));
    }

-- The matcher would load an order of this side and this price.
pub record IsOffered (f : BookNumbers) (is_long : Bool) (market_id now : ℕ) (db : Db)
    (price : String) : Type 0 where
  pub order : RestingOrder
  pub loaded : In order (resting_orders market_id now db)
  pub side : order.is_long ≡ is_long
  pub priced : f.price_human order.limit_price ≡ price

is_listed-is_open :
    (market_id now : ℕ) (r : OrderRow)
    → is_listed market_id now r ≡ (is_open market_id now r && not (r.limit_price == 0))
unfolding is_listed is_open
is_listed-is_open market_id now r = ground arith
