-- ===== src/Matcher/Book/Ordered.antt =====
-- Walks along a sorted book, and what goes before what in it.
use kryon.Common.{
  ◌<◌, ◌≡◌, refl, ◌⊎◌, inl, inr, List, [], ◌∷◌, Bool, true, false, arith, In, All-at, Flow,
  for_each, for_each_cases, if◌then◌else◌,
}
use kryon.Matcher.Order.{RestingOrder}
use kryon.Matcher.Sort.{
  IsSorted, sort-IsSorted, best_bid_first, best_ask_first, best_bid_first_total,
  best_bid_first_trans,
}
use kryon.Matcher.Book.{MatchState, limit_bids}
use kryon.Matcher.Book.Progress.{Grows}

-- `b` has a better price than `a` of the same side, or the same price and an earlier time.
abbrev pub IsBetter : RestingOrder → RestingOrder → Type 0
IsBetter b a =
    (b.is_long ≡ a.is_long)
    × ((if a.is_long then a.limit_price < b.limit_price else b.limit_price < a.limit_price)
        ⊎ ((b.limit_price ≡ a.limit_price) × (b.created_at < a.created_at)))

-- A walk along a sorted book: a round can rely on every order of the book that goes before its own being done with.
module _ (before : RestingOrder → RestingOrder → Bool)
    (level : (o : RestingOrder) → before o o ≡ true)
    (body : RestingOrder → MatchState → Flow × MatchState) (P : MatchState → Type 0)
    (D : RestingOrder → MatchState → Type 0) (book : List RestingOrder)
    (lasts : (o : RestingOrder) (s t : MatchState) → Grows s t → D o s → D o t)
    (grows : (o : RestingOrder) (s : MatchState) → Grows s (body o s).1)
    (round : (o : RestingOrder) (s : MatchState)
      → In o book
      → P s
      → ((y : RestingOrder) → In y book → before o y ≡ false → D y s)
      → P (body o s).1 × D o (body o s).1) where
  pub walk_keeps :
      (os : List RestingOrder) (s : MatchState)
      → ((o : RestingOrder) → In o os → In o book)
      → IsSorted before os
      → ((y : RestingOrder) → In y book → In y os ⊎ D y s)
      → P s
      → P (for_each body os s)
  unfolding for_each
  walk_keeps [] s sub sorted passed h = h
  walk_keeps (o ∷ os) s sub sorted passed h =
      let s' = (body o s).1 in
      let earlier : (y : RestingOrder) → In y book → before o y ≡ false → D y s = λ y i e.
        elim (passed y i) [
          | inl (inl q) ↦ absurd (cc (level o, e, q))
          | inl (inr m) ↦ absurd (cc (All-at _ y os sorted.0 m, e))
          | inr d ↦ d
        ] in
      let (k, done) = round o s (sub o (inl refl)) h earlier in
      for_each_cases P body o os s
        (λ _.
          walk_keeps os s' (λ y i. sub y (inr i)) sorted.1
            (λ y i. elim (passed y i) [
              | inl (inl q) ↦ inr (rw q done)
              | inl (inr m) ↦ inl m
              | inr d ↦ inr (lasts y s s' (grows o s) d)
            ])
            k)
        (λ _. k)

pub best_bid_first_level : (o : RestingOrder) → best_bid_first o o ≡ true
unfolding best_bid_first
best_bid_first_level o = ground arith

pub best_ask_first_level : (o : RestingOrder) → best_ask_first o o ≡ true
unfolding best_ask_first
best_ask_first_level o = ground arith

pub better_bid_first :
    (o y : RestingOrder) → o.is_long ≡ true → IsBetter y o → best_bid_first o y ≡ false
unfolding best_bid_first
better_bid_first o y long b = ground arith

pub better_ask_first :
    (o y : RestingOrder) → o.is_long ≡ false → IsBetter y o → best_ask_first o y ≡ false
unfolding best_ask_first
better_ask_first o y short b = ground arith

pub limit_bids-IsSorted : (limits : List RestingOrder) → IsSorted best_bid_first (limit_bids limits)
unfolding limit_bids
limit_bids-IsSorted limits =
    sort-IsSorted best_bid_first best_bid_first_total best_bid_first_trans _
