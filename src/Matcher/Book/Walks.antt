-- ===== src/Matcher/Book/Walks.antt =====
-- The loops of `matchAll` settle each order with every order of the other side.
use kryon.Common.{
  ◌<◌, ◌≡◌, inl, inr, List, [], ◌∷◌, true, All, Flow, break, for_each, for_each_cases,
}
use native.Mathlib.Nat.{le_trans}
use kryon.Matcher.Order.{RestingOrder}
use kryon.Matcher.Sort.{IsSorted, best_ask_first, best_ask_first-le}
use kryon.Matcher.Book.{MatchState, remaining, hit_resting, cross, hit_book, cross_book}
use kryon.Matcher.Book.Cases.{IsDone, hit_resting_cases, cross_cases}
use kryon.Matcher.Book.Progress.{
  Grows, book_fill-IsDone, IsApart, IsDone-Grows, IsApart-Grows, cross-Grows, hit_resting-Grows,
  for_each-Grows, stops_used_up,
}

-- A walk along a list settles every order of the list, if each round settles its own order and a
-- stop settles the rest.
module _ (D : RestingOrder → MatchState → Type 0) (G : List RestingOrder → Type 0)
    (body : RestingOrder → MatchState → Flow × MatchState)
    (lasts : (o : RestingOrder) (s t : MatchState) → Grows s t → D o s → D o t)
    (grows : (o : RestingOrder) (s : MatchState) → Grows s (body o s).1)
    (tail : (o : RestingOrder) (os : List RestingOrder) → G (o ∷ os) → G os)
    (round : (o : RestingOrder) (os : List RestingOrder) (s : MatchState)
      → G (o ∷ os)
      → D o (body o s).1 × ((body o s).0 ≡ break → All (λ y. D y (body o s).1) os)) where
  pub for_each_settles :
      (os : List RestingOrder) (s : MatchState) → G os → All (λ o. D o (for_each body os s)) os
  for_each_settles [] s g = tt
  for_each_settles (o ∷ os) s g =
      let s' = (body o s).1 in
      let now = round o os s g in
      for_each_cases (λ t. All (λ y. D y t) (o ∷ os)) body o os s
        (λ _. (
          lasts o s' (for_each body os s') (for_each-Grows body grows os s') now.0,
          for_each_settles os s' (tail o os g),
        ))
        (λ e. (now.0, now.1 e))

pub IsApart-used_up :
    (bid : RestingOrder) (s : MatchState) (asks : List RestingOrder)
    → remaining bid s ≡ 0
    → All (λ ask. IsApart bid ask s) asks
IsApart-used_up bid s [] h = tt
IsApart-used_up bid s (x ∷ xs) h = (inr (inr (inl h)), IsApart-used_up bid s xs h)

pub IsApart-dearer :
    (bid ask : RestingOrder) (s : MatchState) (asks : List RestingOrder)
    → bid.limit_price < ask.limit_price
    → All (λ y. best_ask_first ask y ≡ true) asks
    → All (λ y. IsApart bid y s) asks
IsApart-dearer bid ask s [] h k = tt
IsApart-dearer bid ask s (y ∷ ys) h k =
    (inl (le_trans h (best_ask_first-le ask y k.0)), IsApart-dearer bid ask s ys h k.1)

pub cross_round :
    (bid ask : RestingOrder) (asks : List RestingOrder) (s : MatchState)
    → IsSorted best_ask_first (ask ∷ asks)
    → IsApart bid ask (cross bid ask s).1
      × ((cross bid ask s).0 ≡ break → All (λ y. IsApart bid y (cross bid ask s).1) asks)
cross_round bid ask asks s g =
    cross_cases (λ r. IsApart bid ask r.1 × (r.0 ≡ break → All (λ y. IsApart bid y r.1) asks)) bid
      ask s (λ d. (inr d, λ e. cc))
      (λ below. (inl below, λ _. IsApart-dearer bid ask s asks below g.0))
      (λ _ f. (
        inr (book_fill-IsDone bid ask _ s f),
        λ e. IsApart-used_up bid _ asks (stops_used_up bid _ e),
      ))

-- After the walk of a bid along sorted asks, no ask is left that it could trade with.
pub cross-IsApart :
    (bid : RestingOrder) (asks : List RestingOrder) (s : MatchState)
    → IsSorted best_ask_first asks
    → All (λ ask. IsApart bid ask (for_each (cross bid) asks s)) asks
cross-IsApart bid =
    for_each_settles (IsApart bid) (IsSorted best_ask_first) (cross bid)
      (λ ask s t. IsApart-Grows bid ask s t) (cross-Grows bid) (λ o os g. g.1) (cross_round bid)

pub IsDone-used_up :
    (mo : RestingOrder) (s : MatchState) (book : List RestingOrder)
    → remaining mo s ≡ 0
    → All (λ o. IsDone o mo s) book
IsDone-used_up mo s [] h = tt
IsDone-used_up mo s (x ∷ xs) h = (inr (inr h), IsDone-used_up mo s xs h)

pub hit_round :
    (mo o : RestingOrder) (book : List RestingOrder) (s : MatchState)
    → Unit {0}
    → IsDone o mo (hit_resting mo o s).1
      × ((hit_resting mo o s).0 ≡ break → All (λ y. IsDone y mo (hit_resting mo o s).1) book)
hit_round mo o book s _ =
    hit_resting_cases (λ r. IsDone o mo r.1 × (r.0 ≡ break → All (λ y. IsDone y mo r.1) book)) mo o
      s (λ d. (d, λ e. cc))
      (λ f. (book_fill-IsDone o mo _ s f, λ e. IsDone-used_up mo _ book (stops_used_up mo _ e)))

pub hit-IsDone :
    (mo : RestingOrder) (book : List RestingOrder) (s : MatchState)
    → All (λ o. IsDone o mo (for_each (hit_resting mo) book s)) book
hit-IsDone mo book s =
    for_each_settles (λ o. IsDone o mo) (λ _. Unit {0}) (hit_resting mo)
      (λ o s t. IsDone-Grows o mo s t) (hit_resting-Grows mo) (λ o os g. g) (hit_round mo) book s tt

-- The outer loops settle every order of theirs with every order of the other side.
module _ (book : List RestingOrder) where
  pub hit_book-Grows : (mo : RestingOrder) (s : MatchState) → Grows s (hit_book book mo s).1
  unfolding hit_book
  hit_book-Grows mo s = for_each-Grows (hit_resting mo) (hit_resting-Grows mo) book s

  pub cross_book-Grows : (bid : RestingOrder) (s : MatchState) → Grows s (cross_book book bid s).1
  unfolding cross_book
  cross_book-Grows bid s = for_each-Grows (cross bid) (cross-Grows bid) book s

  pub All-Grows :
      (D : RestingOrder → MatchState → Type 0) (s t : MatchState)
      → ((o : RestingOrder) → D o s → D o t)
      → (os : List RestingOrder) → All (λ o. D o s) os
      → All (λ o. D o t) os
  All-Grows D s t f [] h = tt
  All-Grows D s t f (o ∷ os) h = (f o h.0, All-Grows D s t f os h.1)

  pub hits-IsDone :
      (mos : List RestingOrder) (s : MatchState)
      → All (λ mo. All (λ o. IsDone o mo (for_each (hit_book book) mos s)) book) mos
  unfolding hit_book
  hits-IsDone mos s =
      for_each_settles (λ mo t. All (λ o. IsDone o mo t) book) (λ _. Unit {0}) (hit_book book)
        (λ mo t u g. All-Grows (λ o. IsDone o mo) t u (λ o. IsDone-Grows o mo t u g) book)
        hit_book-Grows (λ o os g. g) (λ mo os t _. (hit-IsDone mo book t, λ e. cc)) mos s tt

  pub crosses-IsApart :
      IsSorted best_ask_first book
      → (bids : List RestingOrder) (s : MatchState)
      → All (λ bid. All (λ ask. IsApart bid ask (for_each (cross_book book) bids s)) book) bids
  unfolding cross_book
  crosses-IsApart sorted bids s =
      for_each_settles (λ bid t. All (λ ask. IsApart bid ask t) book) (λ _. Unit {0})
        (cross_book book)
        (λ bid t u g. All-Grows (IsApart bid) t u (λ o. IsApart-Grows bid o t u g) book)
        cross_book-Grows (λ o os g. g) (λ bid os t _. (cross-IsApart bid book t sorted, λ e. cc))
        bids s tt
