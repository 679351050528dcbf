-- ===== src/Matcher/Book/Loops.antt =====
-- Invariants of `matchAll`: what every fill between orders of opposite sides keeps, the engine keeps.
use kryon.Common.{◌≤◌, ◌≡◌, List, true, false, not, arith, In, for_each_inv, In-keep}
use kryon.Matcher.Order.{RestingOrder}
use kryon.Matcher.Sort.{sort-In, best_bid_first, best_ask_first}
use kryon.Matcher.Book.{
  MatchState, book_fill, hit_resting, cross, hit_book, cross_book, limit_bids, limit_asks,
  run_market_sells, run_market_buys, run_limits, final_state, empty,
}
use kryon.Matcher.Book.Cases.{IsFill, market_match, limit_match, hit_resting_cases, cross_cases}

pub limit_bids-In :
    (o : RestingOrder) (limits : List RestingOrder)
    → In o (limit_bids limits)
    → In o limits × (o.is_long ≡ true)
unfolding limit_bids
limit_bids-In o limits h = In-keep _ o limits (sort-In best_bid_first o _ h)

pub limit_asks-In :
    (o : RestingOrder) (limits : List RestingOrder)
    → In o (limit_asks limits)
    → In o limits × (o.is_long ≡ false)
unfolding limit_asks
limit_asks-In o limits h =
    let (m, e) = In-keep _ o limits (sort-In best_ask_first o _ h) in (m, ground arith)

module _ (P : MatchState → Type 0) (limits markets : List RestingOrder)
    (market_fill : (mo resting : RestingOrder) (s : MatchState)
      → In resting limits
      → In mo markets
      → (resting.is_long ≡ not mo.is_long)
      → IsFill resting mo (market_match resting mo s) s
      → P s
      → P (book_fill resting mo (market_match resting mo s) s))
    (limit_fill : (bid ask : RestingOrder) (s : MatchState)
      → In bid limits
      → In ask limits
      → bid.is_long ≡ true
      → ask.is_long ≡ false
      → ask.limit_price ≤ bid.limit_price
      → IsFill bid ask (limit_match bid ask s) s
      → P s
      → P (book_fill bid ask (limit_match bid ask s) s)) where
  hit_book_keeps :
      (book : List RestingOrder) (mo : RestingOrder) (s : MatchState)
      → ((o : RestingOrder) → In o book → In o limits × (o.is_long ≡ not mo.is_long))
      → In mo markets
      → P s
      → P (hit_book book mo s).1
  unfolding hit_book
  hit_book_keeps book mo s opposite m h =
      for_each_inv P (hit_resting mo) book
        (λ o t i k.
          hit_resting_cases (λ r. P r.1) mo o t (λ _. k)
            (λ f. market_fill mo o t (opposite o i).0 m (opposite o i).1 f k))
        s h

  pub run_market_sells_inv : (s : MatchState) → P s → P (run_market_sells limits markets s)
  unfolding run_market_sells
  run_market_sells_inv = for_each_inv P _ _ λ mo t i k.
      let (m, e) = In-keep _ mo markets i in
      hit_book_keeps (limit_bids limits) mo t
        (λ o j. ((limit_bids-In o limits j).0, ground (arith, limit_bids-In o limits j))) m k

  pub run_market_buys_inv : (s : MatchState) → P s → P (run_market_buys limits markets s)
  unfolding run_market_buys
  run_market_buys_inv = for_each_inv P _ _ λ mo t i k.
      let (m, e) = In-keep _ mo markets i in
      hit_book_keeps (limit_asks limits) mo t
        (λ o j. ((limit_asks-In o limits j).0, ground (arith, limit_asks-In o limits j))) m k

  pub cross_book_inv :
      (bid : RestingOrder) (s : MatchState)
      → In bid (limit_bids limits)
      → P s
      → P (cross_book (limit_asks limits) bid s).1
  unfolding cross_book
  cross_book_inv bid s i h =
      for_each_inv P (cross bid) (limit_asks limits)
        (λ ask t j k.
          cross_cases (λ r. P r.1) bid ask t (λ _. k) (λ _. k)
            (λ price f.
              limit_fill bid ask t (limit_bids-In bid limits i).0 (limit_asks-In ask limits j).0
                (limit_bids-In bid limits i).1 (limit_asks-In ask limits j).1 price f k))
        s h

  pub run_limits_inv : (s : MatchState) → P s → P (run_limits limits s)
  unfolding run_limits
  run_limits_inv = for_each_inv P _ _ (λ bid t i k. cross_book_inv bid t i k)

  -- So the engine keeps it from the empty state on.
  pub final_state_inv : P empty → P (final_state limits markets)
  unfolding final_state
  final_state_inv h = run_limits_inv _ (run_market_buys_inv _ (run_market_sells_inv _ h))
