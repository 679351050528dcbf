-- ===== src/Stream/Book/Offered.antt =====
-- The public book against what the matcher loads.
use kryon.Common.{
  ℕ, ◌≡◌, ◌↔◌, refl, sym, ap, ◌∙◌, subst, inl, inr, String, Bool, true, false, not, ◌&&◌, List, [],
  map, ◌==◌, In, In-keep, keep-In,
}
use kryon.Database.{OrderRow, Db}
use kryon.Matcher.Sort.{sort, sort-In, In-sort, best_ask_first}
use kryon.Matcher.Loading.{map_order_row, is_open, resting_orders}
use kryon.Stream.Book.Levels.{
  HasLevel, OnSide, In-map, map-In, add_rows-HasLevel, HasLevel-add_rows,
}
use kryon.Stream.Book.{
  BookNumbers, OrderBookLevel, is_listed, book_rows, add_rows, level_of, order_book, IsOffered,
  is_listed-is_open,
}

module _ (f : BookNumbers) where
  -- The rows of the book are the rows of the orders that the matcher loads.
  rows-loaded :
      (is_long : Bool) (p : String) (market_id now : ℕ) (db : Db)
      → ((r : OrderRow) × In r (book_rows market_id now db) × OnSide f is_long p r)
      → IsOffered f is_long market_id now db p
  unfolding book_rows resting_orders OnSide map_order_row
  rows-loaded is_long p market_id now db (r, m, (side, priced)) =
      let (old, listed) = In-keep (is_listed market_id now) r db.orders (sort-In _ r _ m) in
      let open_row = sym (is_listed-is_open market_id now r) ∙ listed in
      record {
        order = map_order_row r;
        loaded = In-sort best_ask_first (map_order_row r) _ (
            map-In map_order_row r _ (
              keep-In (λ x. is_open market_id now x && not (x.limit_price == 0)) r db.orders old
                open_row));
        side = side;
        priced = priced;
      }

  loaded-rows :
      (is_long : Bool) (p : String) (market_id now : ℕ) (db : Db)
      → IsOffered f is_long market_id now db p
      → (r : OrderRow) × In r (book_rows market_id now db) × OnSide f is_long p r
  unfolding book_rows resting_orders OnSide map_order_row
  loaded-rows is_long p market_id now db h =
      let (r, kept, e) =
        In-map map_order_row h.order _ (sort-In best_ask_first h.order _ h.loaded) in
      let (old, open_row) =
        In-keep (λ x. is_open market_id now x && not (x.limit_price == 0)) r db.orders kept in
      let listed = is_listed-is_open market_id now r ∙ open_row in
      (
        r,
        In-sort _ r _ (keep-In (is_listed market_id now) r db.orders old listed),
        (
          ap (λ o. o.is_long) (sym e) ∙ h.side,
          ap (λ o. f.price_human o.limit_price) (sym e) ∙ h.priced,
        ),
      )

  -- The levels of a side, in any order, with their texts
  listed_levels :
      (before : String × ℕ → String × ℕ → Bool) (p : String) (levels : List (String × ℕ))
      → ((l : OrderBookLevel) × In l (map (level_of f) (sort before levels)) × (l.price ≡ p))
        ↔ HasLevel p levels
  unfolding HasLevel
  listed_levels before p levels = (
    λ (l, m, e).
        let ((q, s), k, g) = In-map (level_of f) l _ m in
        let same : q ≡ p = ap (λ x. x.price) (sym g) ∙ e in
        (s, subst (λ x. In (x, s) levels) same (sort-In before (q, s) levels k)),
    λ (s, m).
        (level_of f (p, s), map-In (level_of f) (p, s) _ (In-sort before (p, s) levels m), refl),
  )

  side-IsOffered :
      (is_long : Bool) (p : String) (market_id now : ℕ) (db : Db)
      → HasLevel p (add_rows f is_long (book_rows market_id now db) [])
        ↔ IsOffered f is_long market_id now db p
  unfolding HasLevel
  side-IsOffered is_long p market_id now db = (
    λ h. elim (add_rows-HasLevel f is_long p (book_rows market_id now db) [] h) [
      | inl (s, m) ↦ absurd m
      | inr r ↦ rows-loaded is_long p market_id now db r
    ],
    λ h.
        HasLevel-add_rows f is_long p (book_rows market_id now db) []
          (inr (loaded-rows is_long p market_id now db h)),
  )

-- A price is a level of the bids of the public book exactly when the matcher would load a buy order at that price,
-- with a limit, and a level of the asks exactly when it would load a sell order.
pub order_book-IsOffered :
    (f : BookNumbers) (market_id now : ℕ) (db : Db) (price : String)
    → let book = order_book f market_id now db in
      (((l : OrderBookLevel) × In l book.bids × (l.price ≡ price))
        ↔ IsOffered f true market_id now db price)
      × (((l : OrderBookLevel) × In l book.asks × (l.price ≡ price))
          ↔ IsOffered f false market_id now db price)
unfolding order_book
order_book-IsOffered f market_id now db price =
    let (bid_there, bid_back) = listed_levels f _ price _ in
    let (ask_there, ask_back) = listed_levels f _ price _ in
    let (buy_there, buy_back) = side-IsOffered f true price market_id now db in
    let (sell_there, sell_back) = side-IsOffered f false price market_id now db in
    (
      ((λ h. buy_there (bid_there h)), (λ h. bid_back (buy_back h))),
      ((λ h. sell_there (ask_there h)), (λ h. ask_back (sell_back h))),
    )
