-- ===== src/Matcher/Book/Priority.antt =====
-- Price-time priority of `matchAll`: who trades has nobody of its side before it.
use kryon.Common.{
  ◌≤◌, ◌≡◌, ◌≢◌, sym, ◌⊎◌, inl, inr, List, true, false, arith, In, All-at, leb, Bool-cases,
  for_each,
}
use kryon.Matcher.Order.{RestingOrder, MatchResult}
use kryon.Matcher.Sort.{best_bid_first, best_ask_first}
use kryon.Matcher.Book.{
  MatchState, cross, cross_book, limit_bids, limit_asks, run_limits, final_state, match_all, empty,
}
use kryon.Matcher.Book.Cases.{IsFill, limit_match, cross_cases}
use kryon.Matcher.Book.Loops.{limit_bids-In, limit_asks-In}
use kryon.Matcher.Book.Progress.{
  book_fill-Grows, book_fill-IsDone, IsApart, IsApart-Grows, cross-Grows,
}
use kryon.Matcher.Book.Walks.{cross_book-Grows, cross-IsApart}
use kryon.Matcher.Book.Uncrossed.{
  limit_asks-IsSorted, In-limit_asks, In-limit_bids, IsUsedUp, remaining-IsUsedUp,
}
use kryon.Matcher.Book.Ordered.{
  IsBetter, walk_keeps, best_bid_first_level, best_ask_first_level, better_bid_first,
  better_ask_first, limit_bids-IsSorted,
}
use kryon.Matcher.Book.Passed.{
  IsUsed, IsFirst, HasPriority, Prior, empty-Prior, Prior-at, book_fill-Prior,
  run_market_sells-Prior, run_market_buys-Prior,
}

module _ (limits markets : List RestingOrder) where
  -- Pass 2: the bids better than this one are done with every ask.
  abbrev AreApart : RestingOrder → MatchState → Type 0
  AreApart bid s = (ask : RestingOrder) → In ask (limit_asks limits) → IsApart bid ask s

  abbrev IsNext : RestingOrder → MatchState → Type 0
  IsNext bid s = (y : RestingOrder) → In y limits → IsBetter y bid → AreApart y s

  bid-IsFirst :
      (bid ask : RestingOrder) (s : MatchState)
      → bid.is_long ≡ true
      → In ask (limit_asks limits)
      → ask.limit_price ≤ bid.limit_price
      → IsNext bid s
      → IsFill bid ask (limit_match bid ask s) s
      → IsFirst limits (IsUsed s) bid ask
  bid-IsFirst bid ask s long j price next f y i b other = elim (next y i b ask j) [
    | inl below ↦ absurd (ground (arith, long, b, below, price))
    | inr (inl own) ↦ absurd (other own)
    | inr (inr (inl used)) ↦ used
    | inr (inr (inr spent)) ↦
        let p = f.positive in let q = f.second_left in absurd (omega (arith, p, q, spent))
  ]

  ask-IsFirst :
      (bid ask : RestingOrder) (s : MatchState)
      → ask.is_long ≡ false
      → ask.limit_price ≤ bid.limit_price
      → ((y : RestingOrder)
          → In y (limit_asks limits)
          → best_ask_first ask y ≡ false
          → IsApart bid y s)
      → IsFill bid ask (limit_match bid ask s) s
      → IsFirst limits (IsUsed s) ask bid
  ask-IsFirst bid ask s short price earlier f y i b other =
      let same = b.0 in
      elim (earlier y (In-limit_asks y limits i (cc (same, short)))
        (better_ask_first ask y short b)) [
          | inl below ↦ absurd (ground (arith, short, b, below, price))
          | inr (inl own) ↦ absurd (other (sym own))
          | inr (inr (inl spent)) ↦
              let p = f.positive in let q = f.first_left in absurd (omega (arith, p, q, spent))
          | inr (inr (inr used)) ↦ used
        ]

  limit_match-HasPriority :
      (bid ask : RestingOrder) (s : MatchState)
      → IsFirst limits (IsUsed s) bid ask
      → IsFirst limits (IsUsed s) ask bid
      → HasPriority limits markets (IsUsed s) (limit_match bid ask s)
  limit_match-HasPriority bid ask s p q = elim (Bool-cases (leb bid.created_at ask.created_at)) [
    | inl e ↦ rw e (record { of_maker = p; of_taker = inr q })
    | inr e ↦ rw e (record { of_maker = q; of_taker = inr p })
  ]

  cross_book-Prior :
      (bid : RestingOrder) (s : MatchState)
      → In bid (limit_bids limits)
      → (Prior limits markets) s
      → IsNext bid s
      → (Prior limits markets) (cross_book (limit_asks limits) bid s).1
  unfolding cross_book
  cross_book-Prior bid s i h next =
      (walk_keeps best_ask_first best_ask_first_level (cross bid)
        (λ t. (Prior limits markets) t × IsNext bid t) (IsApart bid) (limit_asks limits)
        (λ ask. IsApart-Grows bid ask) (cross-Grows bid) cross_keeps (limit_asks limits) s
        (λ o j. j) (limit_asks-IsSorted limits) (λ o j. inl j) (h, next)).0
    where
      cross_keeps :
          (ask : RestingOrder) (t : MatchState)
          → In ask (limit_asks limits)
          → (Prior limits markets) t × IsNext bid t
          → ((y : RestingOrder)
              → In y (limit_asks limits)
              → best_ask_first ask y ≡ false
              → IsApart bid y t)
          → ((Prior limits markets) (cross bid ask t).1 × IsNext bid (cross bid ask t).1)
            × IsApart bid ask (cross bid ask t).1
      cross_keeps ask t j k earlier =
          cross_cases (λ r. ((Prior limits markets) r.1 × IsNext bid r.1) × IsApart bid ask r.1) bid
            ask t (λ d. (k, inr d)) (λ below. (k, inl below))
            (λ price f.
              let long = (limit_bids-In bid limits i).1 in
              let short = (limit_asks-In ask limits j).1 in
              let p =
                limit_match-HasPriority bid ask t (bid-IsFirst bid ask t long j price k.1 f)
                  (ask-IsFirst bid ask t short price earlier f) in
              (
                (
                  book_fill-Prior limits markets bid ask _ t k.0 p,
                  λ y l b a m. IsApart-Grows y a t _ (book_fill-Grows bid ask _ t) (k.1 y l b a m),
                ),
                inr (book_fill-IsDone bid ask _ t f),
              ))

  run_limits-Prior :
      (s : MatchState) → (Prior limits markets) s → (Prior limits markets) (run_limits limits s)
  unfolding run_limits
  run_limits-Prior s h =
      walk_keeps best_bid_first best_bid_first_level (cross_book asks) (Prior limits markets)
        AreApart bids (λ bid t u g d ask j. IsApart-Grows bid ask t u g (d ask j))
        (cross_book-Grows asks)
        (λ bid t i k earlier.
          let long = (limit_bids-In bid limits i).1 in
          (
            cross_book-Prior bid t i k (λ y j b.
                let same = b.0 in
                earlier y (In-limit_bids y limits j (cc (same, long)))
                  (better_bid_first bid y long b)),
            λ ask j.
                unfold cross_book in
                All-at (λ x. IsApart bid x (for_each (cross bid) asks t)) ask asks
                  (cross-IsApart bid asks t (limit_asks-IsSorted limits)) j,
          ))
        bids s (λ o i. i) (limit_bids-IsSorted limits) (λ o i. inl i) h
    where
      bids : List RestingOrder
      bids = limit_bids limits

      asks : List RestingOrder
      asks = limit_asks limits

  final_state-HasPriority :
      (m : MatchResult)
      → In m (final_state limits markets).results
      → HasPriority limits markets (IsUsed (final_state limits markets)) m
  unfolding final_state
  final_state-HasPriority m = Prior-at limits markets m _ (
      run_limits-Prior _ (
        run_market_buys-Prior limits markets _
          (run_market_sells-Prior limits markets empty (empty-Prior limits markets))))

-- Price-time priority: if matchAll has matched a limit order with another order, then each limit order of its side that
-- has a better price, or the same price and an earlier time, is used up by the matches, unless it is of the owner of
-- that other order. The maker of a match is such a limit order, and so is a taker that is not a market order.
pub match_all-priority :
    (limits markets : List RestingOrder) (m : MatchResult) (o : RestingOrder)
    → In m (match_all limits markets)
    → In o limits
    → (IsBetter o m.maker × (o.owner ≢ m.taker.owner))
      ⊎ ((¬ In m.taker markets) × IsBetter o m.taker × (o.owner ≢ m.maker.owner))
    → IsUsedUp o (match_all limits markets)
unfolding match_all
match_all-priority limits markets m o i j passed =
    let first = final_state-HasPriority limits markets m i in
    remaining-IsUsedUp limits markets o (elim passed [
      | inl (better, other) ↦ first.of_maker o j better other
      | inr (limit, better, other) ↦ elim first.of_taker [
        | inl market ↦ absurd (limit market)
        | inr of_taker ↦ of_taker o j better other
      ]
    ])
