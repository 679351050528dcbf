-- ===== src/Matcher/Book/Passed.antt =====
-- What `matchAll` keeps for price-time priority, and that its walks of market orders keep it.
use kryon.Common.{
  ◌≡◌, ◌≢◌, ◌⊎◌, inl, inr, List, [], ◌∷◌, Bool, true, false, arith, In, All, All-append, All-intro,
  All-at, In-keep, for_each_inv,
}
use kryon.Matcher.Order.{RestingOrder, MatchResult}
use kryon.Matcher.Sort.{IsSorted, best_bid_first, best_ask_first}
use kryon.Matcher.Book.{
  MatchState, remaining, book_fill, hit_resting, hit_book, limit_bids, limit_asks, run_market_sells,
  run_market_buys, empty,
}
use kryon.Matcher.Book.Cases.{IsFill, IsDone, market_match, hit_resting_cases}
use kryon.Matcher.Book.Loops.{limit_bids-In, limit_asks-In}
use kryon.Matcher.Book.Progress.{
  book_fill-Grows, book_fill-IsDone, stays_used, IsDone-Grows, hit_resting-Grows,
}
use kryon.Matcher.Book.Uncrossed.{limit_asks-IsSorted, In-limit_asks, In-limit_bids}
use kryon.Matcher.Book.Ordered.{
  IsBetter, walk_keeps, best_bid_first_level, best_ask_first_level, better_bid_first,
  better_ask_first, limit_bids-IsSorted,
}

abbrev pub IsUsed : MatchState → RestingOrder → Type 0
IsUsed s o = remaining o s ≡ 0

module _ (limits : List RestingOrder) where
  -- Each order that is better than `p`, and not of the owner of `q`, is used up.
  abbrev pub IsFirst : (RestingOrder → Type 0) → RestingOrder → RestingOrder → Type 0
  IsFirst used p q = (o : RestingOrder) → In o limits → IsBetter o p → o.owner ≢ q.owner → used o

  module _ (markets : List RestingOrder) where
    pub record HasPriority (used : RestingOrder → Type 0) (m : MatchResult) : Type 0 where
      pub of_maker : IsFirst used m.maker m.taker
      pub of_taker : In m.taker markets ⊎ IsFirst used m.taker m.maker

    HasPriority-weaken :
        (u v : RestingOrder → Type 0)
        → ((o : RestingOrder) → u o → v o)
        → (m : MatchResult) → HasPriority u m
        → HasPriority v m
    HasPriority-weaken u v f m h = record {
      of_maker = λ o i b n. f o (h.of_maker o i b n);
      of_taker = elim h.of_taker [
        | inl market ↦ inl market
        | inr first ↦ inr (λ o i b n. f o (first o i b n))
      ];
    }

    pub Prior : MatchState → Type 0
    Prior s = All (HasPriority (IsUsed s)) s.results

    pub empty-Prior : Prior empty
    unfolding Prior
    empty-Prior = tt

    pub Prior-at :
        (m : MatchResult) (s : MatchState) → Prior s → In m s.results → HasPriority (IsUsed s) m
    unfolding Prior
    Prior-at m s h i = All-at _ m s.results h i

    pub book_fill-Prior :
        (a b : RestingOrder) (m : MatchResult) (s : MatchState)
        → Prior s
        → HasPriority (IsUsed s) m
        → Prior (book_fill a b m s)
    unfolding book_fill Prior
    book_fill-Prior a b m s h p =
        let stays : (o : RestingOrder) → IsUsed s o → IsUsed (book_fill a b m s) o =
          λ o. stays_used o s (book_fill a b m s) (book_fill-Grows a b m s) in
        let later = HasPriority-weaken (IsUsed s) (IsUsed (book_fill a b m s)) stays in
        All-append _ s.results (m ∷ [])
          (All-intro _ s.results (λ x i. later x (All-at _ x s.results h i))) (later m p, tt)

    -- Pass 1, with the book of either side
    module _ (before : RestingOrder → RestingOrder → Bool)
        (level : (o : RestingOrder) → before o o ≡ true) (side : Bool) (book : List RestingOrder)
        (sorted : IsSorted before book) (sided : (o : RestingOrder) → In o book → o.is_long ≡ side)
        (enters : (o : RestingOrder) → In o limits → o.is_long ≡ side → In o book)
        (better : (o y : RestingOrder) → o.is_long ≡ side → IsBetter y o → before o y ≡ false) where
      market_match-HasPriority :
          (mo o : RestingOrder) (s : MatchState)
          → In mo markets
          → In o book
          → ((y : RestingOrder) → In y book → before o y ≡ false → IsDone y mo s)
          → IsFill o mo (market_match o mo s) s
          → HasPriority (IsUsed s) (market_match o mo s)
      market_match-HasPriority mo o s m i earlier f = record {
        of_maker = λ y j b other.
            let same = b.0 in
            let long = sided o i in
            elim (earlier y (enters y j (cc (same, long))) (better o y long b)) [
              | inl own ↦ absurd (other own)
              | inr (inl used) ↦ used
              | inr (inr spent) ↦
                  let p = f.positive in let q = f.second_left in absurd (omega (arith, p, q, spent))
            ];
        of_taker = inl m;
      }

      hit_book-Prior :
          (mo : RestingOrder) (s : MatchState)
          → In mo markets
          → Prior s
          → Prior (hit_book book mo s).1
      unfolding hit_book
      hit_book-Prior mo s m h =
          walk_keeps before level (hit_resting mo) Prior (λ o. IsDone o mo) book
            (λ o. IsDone-Grows o mo) (hit_resting-Grows mo)
            (λ o t i k earlier.
              hit_resting_cases (λ r. Prior r.1 × IsDone o mo r.1) mo o t (λ d. (k, d))
                (λ f. (
                  book_fill-Prior o mo _ t k (market_match-HasPriority mo o t m i earlier f),
                  book_fill-IsDone o mo _ t f,
                )))
            book s (λ o i. i) sorted (λ o i. inl i) h

    pub run_market_sells-Prior :
        (s : MatchState) → Prior s → Prior (run_market_sells limits markets s)
    unfolding run_market_sells
    run_market_sells-Prior = for_each_inv Prior _ _ λ mo t i.
        hit_book-Prior best_bid_first best_bid_first_level true (limit_bids limits)
          (limit_bids-IsSorted limits) (λ o j. (limit_bids-In o limits j).1)
          (λ o j e. In-limit_bids o limits j e) better_bid_first mo t (In-keep _ mo markets i).0

    pub run_market_buys-Prior :
        (s : MatchState) → Prior s → Prior (run_market_buys limits markets s)
    unfolding run_market_buys
    run_market_buys-Prior = for_each_inv Prior _ _ λ mo t i.
        hit_book-Prior best_ask_first best_ask_first_level false (limit_asks limits)
          (limit_asks-IsSorted limits) (λ o j. (limit_asks-In o limits j).1)
          (λ o j e. In-limit_asks o limits j e) better_ask_first mo t (In-keep _ mo markets i).0
