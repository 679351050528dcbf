-- ===== src/Matcher/Book.antt =====
-- `matchAll` of client/scripts/matcher-service.ts: the single-pass matching engine.
pub mod Cases
pub mod Loops
pub mod Volume
pub mod Fairness
pub mod Progress
pub mod Walks
pub mod Uncrossed
pub mod Ordered
pub mod Passed
pub mod Priority
pub mod Tests
use Prim.Native.Nat.{min}
use kryon.Common.{
  ℕ, ◌-◌, List, [], ◌∷◌, ◌++◌, not, ◌||◌, ltb, leb, ◌==◌, str_eq, if◌then◌else◌, keep, Flow,
  continue, break, for_each,
}
use kryon.Matcher.Order.{RestingOrder, MatchResult}
use kryon.Matcher.Pending.{PendingFills, pending, add}
use kryon.Matcher.Sort.{sort, best_bid_first, best_ask_first}

-- The two variables that the loops of `matchAll` write.
pub record MatchState : Type 0 where
  pub pending_fills : PendingFills
  pub results : List MatchResult

-- `o.size - o.filledSize - pendingFills.get(o.id)`. The program tests the difference for `<= 0n`
-- only, which is where the difference of natural numbers is 0.
unfoldable pub remaining : RestingOrder → MatchState → ℕ
remaining o s = o.size - o.filled_size - pending o.id s.pending_fills

-- The two calls of `add` and the `results.push` of one fill.
unfoldable pub book_fill : RestingOrder → RestingOrder → MatchResult → MatchState → MatchState
book_fill a b m s = record {
  pending_fills = add b.id m.fill_size (add a.id m.fill_size s.pending_fills);
  results = s.results ++ m ∷ [];
}

-- The inner body of pass 1, in which a market order `mo` meets a resting limit order. The loops over
-- `limitBids` and over `limitAsks` have the same body.
unfoldable pub hit_resting : RestingOrder → RestingOrder → MatchState → Flow × MatchState
hit_resting mo resting s =
    if str_eq resting.owner mo.owner
    then (continue, s)
    else if remaining resting s == 0 || remaining mo s == 0
    then (continue, s)
    else (let fill_size =
          if ltb (remaining resting s) (remaining mo s)
          then remaining resting s
          else remaining mo s in
        let m : MatchResult = record {
          maker = resting;
          taker = mo;
          fill_size = fill_size;
          fill_price = resting.limit_price;
        } in
        let s' = book_fill resting mo m s in (if remaining mo s' == 0 then break else continue, s'))

-- The inner body of pass 2.
unfoldable pub cross : RestingOrder → RestingOrder → MatchState → Flow × MatchState
cross bid ask s =
    if str_eq bid.owner ask.owner
    then (continue, s)
    else if ltb bid.limit_price ask.limit_price
    then (break, s)
    else if remaining bid s == 0 || remaining ask s == 0
    then (continue, s)
    else (let fill_size =
          if ltb (remaining bid s) (remaining ask s) then remaining bid s else remaining ask s in
        let maker_first = leb bid.created_at ask.created_at in
        let maker = if maker_first then bid else ask in
        let taker = if maker_first then ask else bid in
        let m : MatchResult = record {
          maker = maker;
          taker = taker;
          fill_size = fill_size;
          fill_price = maker.limit_price;
        } in
        let s' = book_fill bid ask m s in (if remaining bid s' == 0 then break else continue, s'))

unfoldable pub hit_book : List RestingOrder → RestingOrder → MatchState → Flow × MatchState
hit_book book mo s = (continue, for_each (hit_resting mo) book s)

unfoldable pub cross_book : List RestingOrder → RestingOrder → MatchState → Flow × MatchState
cross_book asks bid s = (continue, for_each (cross bid) asks s)

unfoldable pub limit_bids : List RestingOrder → List RestingOrder
limit_bids limits = sort best_bid_first (keep (λ o. o.is_long) limits)

unfoldable pub limit_asks : List RestingOrder → List RestingOrder
limit_asks limits = sort best_ask_first (keep (λ o. not o.is_long) limits)

abbrev pub empty : MatchState
empty = record { pending_fills = []; results = [] }

-- Market sells against the bids, market buys against the asks, then the limit orders.
unfoldable pub run_market_sells : List RestingOrder → List RestingOrder → MatchState → MatchState
run_market_sells limits markets =
    for_each (hit_book (limit_bids limits)) (keep (λ o. not o.is_long) markets)

unfoldable pub run_market_buys : List RestingOrder → List RestingOrder → MatchState → MatchState
run_market_buys limits markets =
    for_each (hit_book (limit_asks limits)) (keep (λ o. o.is_long) markets)

unfoldable pub run_limits : List RestingOrder → MatchState → MatchState
run_limits limits = for_each (cross_book (limit_asks limits)) (limit_bids limits)

unfoldable pub final_state : List RestingOrder → List RestingOrder → MatchState
unfolding run_market_sells run_market_buys run_limits
final_state limits markets =
    run_limits limits (run_market_buys limits markets (run_market_sells limits markets empty))

unfoldable pub match_all : List RestingOrder → List RestingOrder → List MatchResult
match_all limits markets = (final_state limits markets).results
