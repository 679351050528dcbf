-- ===== src/Matcher/Book/Uncrossed.antt =====
-- `matchAll` leaves nothing to match.
use kryon.Common.{
  ◌+◌, ◌≤◌, ◌≡◌, ◌≢◌, ◌⊎◌, inl, inr, List, true, false, arith, In, All-at, Bool-cases, keep-In,
}
use kryon.Matcher.Order.{RestingOrder, MatchResult}
use kryon.Matcher.Sort.{
  IsSorted, In-sort, sort-IsSorted, best_bid_first, best_ask_first, best_ask_first_total,
  best_ask_first_trans,
}
use kryon.Matcher.Book.{
  MatchState, remaining, limit_bids, limit_asks, run_market_sells, run_market_buys, run_limits,
  final_state, match_all,
}
use kryon.Matcher.Book.Cases.{IsDone}
use kryon.Matcher.Book.Progress.{Grows, Grows-trans, IsApart, IsDone-Grows, for_each-Grows}
use kryon.Matcher.Book.Walks.{hit_book-Grows, cross_book-Grows, hits-IsDone, crosses-IsApart}
use kryon.Matcher.Book.Volume.{traded, final_state-IsTraced}

pub limit_asks-IsSorted : (limits : List RestingOrder) → IsSorted best_ask_first (limit_asks limits)
unfolding limit_asks
limit_asks-IsSorted limits =
    sort-IsSorted best_ask_first best_ask_first_total best_ask_first_trans _

pub In-limit_asks :
    (o : RestingOrder) (limits : List RestingOrder)
    → In o limits
    → o.is_long ≡ false
    → In o (limit_asks limits)
unfolding limit_asks
In-limit_asks o limits i e = In-sort best_ask_first o _ (keep-In _ o limits i (rw e))

pub In-limit_bids :
    (o : RestingOrder) (limits : List RestingOrder)
    → In o limits
    → o.is_long ≡ true
    → In o (limit_bids limits)
unfolding limit_bids
In-limit_bids o limits i e = In-sort best_bid_first o _ (keep-In _ o limits i e)

-- The matches trade all that was left of the order.
abbrev pub IsUsedUp : RestingOrder → List MatchResult → Type 0
IsUsedUp o matches = o.size ≤ o.filled_size + traded o.id matches

pub remaining-IsUsedUp :
    (limits markets : List RestingOrder) (o : RestingOrder)
    → remaining o (final_state limits markets) ≡ 0
    → IsUsedUp o (match_all limits markets)
unfolding remaining
remaining-IsUsedUp limits markets o h =
    rw (← final_state-IsTraced limits markets o.id) (omega arith)

final_state-IsApart :
    (limits markets : List RestingOrder) (bid ask : RestingOrder)
    → In bid limits
    → In ask limits
    → bid.is_long ≡ true
    → ask.is_long ≡ false
    → IsApart bid ask (final_state limits markets)
unfolding final_state run_limits
final_state-IsApart limits markets bid ask i j long short =
    All-at _ ask (limit_asks limits)
      (All-at _ bid (limit_bids limits)
        (crosses-IsApart (limit_asks limits) (limit_asks-IsSorted limits) (limit_bids limits) _)
        (In-limit_bids bid limits i long))
      (In-limit_asks ask limits j short)

run_limits-Grows : (limits : List RestingOrder) (s : MatchState) → Grows s (run_limits limits s)
unfolding run_limits
run_limits-Grows limits = for_each-Grows _ (cross_book-Grows (limit_asks limits)) _

run_market_buys-Grows :
    (limits markets : List RestingOrder) (s : MatchState)
    → Grows s (run_market_buys limits markets s)
unfolding run_market_buys
run_market_buys-Grows limits markets = for_each-Grows _ (hit_book-Grows (limit_asks limits)) _

run_market_sells-IsDone :
    (limits markets : List RestingOrder) (mo o : RestingOrder) (s : MatchState)
    → In mo markets
    → mo.is_long ≡ false
    → In o (limit_bids limits)
    → IsDone o mo (run_market_sells limits markets s)
unfolding run_market_sells
run_market_sells-IsDone limits markets mo o s i e j =
    All-at _ o (limit_bids limits)
      (All-at _ mo _ (hits-IsDone (limit_bids limits) _ s) (keep-In _ mo markets i (rw e))) j

run_market_buys-IsDone :
    (limits markets : List RestingOrder) (mo o : RestingOrder) (s : MatchState)
    → In mo markets
    → mo.is_long ≡ true
    → In o (limit_asks limits)
    → IsDone o mo (run_market_buys limits markets s)
unfolding run_market_buys
run_market_buys-IsDone limits markets mo o s i e j =
    All-at _ o (limit_asks limits)
      (All-at _ mo _ (hits-IsDone (limit_asks limits) _ s) (keep-In _ mo markets i e)) j

final_state-IsDone :
    (limits markets : List RestingOrder) (mo o : RestingOrder)
    → In mo markets
    → In o limits
    → o.is_long ≢ mo.is_long
    → IsDone o mo (final_state limits markets)
unfolding final_state
final_state-IsDone limits markets mo o i j sides = elim (Bool-cases mo.is_long) [
  | inl long ↦ IsDone-Grows o mo _ _ (run_limits-Grows limits _) (
      run_market_buys-IsDone limits markets mo o _ i long (In-limit_asks o limits j (ground arith)))
  | inr short ↦
      IsDone-Grows o mo _ _
        (Grows-trans _ _ _ (run_market_buys-Grows limits markets _) (run_limits-Grows limits _))
        (run_market_sells-IsDone limits markets mo o _ i short
          (In-limit_bids o limits j (ground arith)))
]

-- `matchAll` leaves the book uncrossed: of a bid and an ask of different owners whose prices cross,
-- one is used up.
pub match_all-uncrossed :
    (limits markets : List RestingOrder) (bid ask : RestingOrder)
    → In bid limits
    → In ask limits
    → bid.is_long ≡ true
    → ask.is_long ≡ false
    → bid.owner ≢ ask.owner
    → ask.limit_price ≤ bid.limit_price
    → IsUsedUp bid (match_all limits markets) ⊎ IsUsedUp ask (match_all limits markets)
match_all-uncrossed limits markets bid ask i j long short owners price =
    elim (final_state-IsApart limits markets bid ask i j long short) [
      | inl below ↦ absurd (omega arith)
      | inr (inl same) ↦ absurd (owners same)
      | inr (inr (inl h)) ↦ inl (remaining-IsUsedUp limits markets bid h)
      | inr (inr (inr h)) ↦ inr (remaining-IsUsedUp limits markets ask h)
    ]

-- A market order and a resting limit order of the other side and another owner do not both have
-- size left: a market order walks the book until one of the two is used up.
pub match_all-market_filled :
    (limits markets : List RestingOrder) (mo o : RestingOrder)
    → In mo markets
    → In o limits
    → o.is_long ≢ mo.is_long
    → o.owner ≢ mo.owner
    → IsUsedUp o (match_all limits markets) ⊎ IsUsedUp mo (match_all limits markets)
match_all-market_filled limits markets mo o i j sides owners =
    elim (final_state-IsDone limits markets mo o i j sides) [
      | inl same ↦ absurd (owners same)
      | inr (inl h) ↦ inl (remaining-IsUsedUp limits markets o h)
      | inr (inr h) ↦ inr (remaining-IsUsedUp limits markets mo h)
    ]
