-- ===== src/Matcher/Book/Cases.antt =====
-- The outcomes of one round of each inner loop of `matchAll`, as elimination rules.
use kryon.Common.{
  ℕ, ◌≤◌, ◌<◌, ◌≡◌, ◌≢◌, ◌⊎◌, inl, inr, refl, true, false, arith, eq_iff, str_eq, leb, ltb, ◌==◌,
  ◌||◌, if◌then◌else◌, Flow, continue, break, Bool-cases,
}
use kryon.Matcher.Order.{RestingOrder, MatchResult}
use kryon.Matcher.Book.{MatchState, remaining, book_fill, hit_resting, cross}

-- What every fill satisfies when it is booked: both orders have the size left, and one of the two is
-- used up.
pub record IsFill (a b : RestingOrder) (m : MatchResult) (s : MatchState) : Type 0 where
  pub positive : 0 < m.fill_size
  pub first_left : m.fill_size ≤ remaining a s
  pub second_left : m.fill_size ≤ remaining b s
  pub exhausts : (remaining a s ≤ m.fill_size) ⊎ (remaining b s ≤ m.fill_size)
  pub owners : a.owner ≢ b.owner

abbrev pub smaller_rest : RestingOrder → RestingOrder → MatchState → ℕ
smaller_rest a b s = if ltb (remaining a s) (remaining b s) then remaining a s else remaining b s

abbrev pub market_match : RestingOrder → RestingOrder → MatchState → MatchResult
market_match resting mo s = record {
  maker = resting;
  taker = mo;
  fill_size = smaller_rest resting mo s;
  fill_price = resting.limit_price;
}

abbrev pub limit_match : RestingOrder → RestingOrder → MatchState → MatchResult
limit_match bid ask s = record {
  maker = if leb bid.created_at ask.created_at then bid else ask;
  taker = if leb bid.created_at ask.created_at then ask else bid;
  fill_size = smaller_rest bid ask s;
  fill_price = (if leb bid.created_at ask.created_at then bid else ask).limit_price;
}

-- Nothing more can be matched between `a` and `b`.
abbrev pub IsDone : RestingOrder → RestingOrder → MatchState → Type 0
IsDone a b s = (a.owner ≡ b.owner) ⊎ (remaining a s ≡ 0) ⊎ (remaining b s ≡ 0)

smaller_rest-IsFill :
    (a b : RestingOrder) (m : MatchResult) (s : MatchState)
    → m.fill_size ≡ smaller_rest a b s
    → str_eq a.owner b.owner ≡ false
    → (remaining a s == 0 || remaining b s == 0) ≡ false
    → IsFill a b m s
smaller_rest-IsFill a b m s e o r = record {
  positive = ground arith;
  first_left = ground arith;
  second_left = ground arith;
  exhausts = ground arith;
  owners = ground (arith, eq_iff a.owner b.owner);
}

no_rest-IsDone :
    (a b : RestingOrder) (s : MatchState)
    → (remaining a s == 0 || remaining b s == 0) ≡ true
    → IsDone a b s
no_rest-IsDone a b s h = ground arith

module _ (P : Flow × MatchState → Type 0) where
  pub hit_resting_cases :
      (mo resting : RestingOrder) (s : MatchState)
      → (IsDone resting mo s → P (continue, s))
      → (IsFill resting mo (market_match resting mo s) s
          → let s' = book_fill resting mo (market_match resting mo s) s in
            P (if remaining mo s' == 0 then break else continue, s'))
      → P (hit_resting mo resting s)
  unfolding hit_resting
  hit_resting_cases mo resting s done fill = elim (Bool-cases (str_eq resting.owner mo.owner)) [
    | inl same ↦ rw same (done (inl ((eq_iff _ _).0 same)))
    | inr other ↦ rw other (elim (Bool-cases (remaining resting s == 0 || remaining mo s == 0)) [
      | inl e ↦ rw e (done (no_rest-IsDone resting mo s e))
      | inr e ↦ rw e (fill (smaller_rest-IsFill resting mo _ s refl other e))
    ])
  ]

  pub cross_cases :
      (bid ask : RestingOrder) (s : MatchState)
      → (IsDone bid ask s → P (continue, s))
      → (bid.limit_price < ask.limit_price → P (break, s))
      → (ask.limit_price ≤ bid.limit_price
          → IsFill bid ask (limit_match bid ask s) s
          → let s' = book_fill bid ask (limit_match bid ask s) s in
            P (if remaining bid s' == 0 then break else continue, s'))
      → P (cross bid ask s)
  unfolding cross
  cross_cases bid ask s done apart fill = elim (Bool-cases (str_eq bid.owner ask.owner)) [
    | inl same ↦ rw same (done (inl ((eq_iff _ _).0 same)))
    | inr other ↦ rw other (elim (Bool-cases (ltb bid.limit_price ask.limit_price)) [
      | inl below ↦ rw below (apart (ground arith))
      | inr above ↦ rw above (elim (Bool-cases (remaining bid s == 0 || remaining ask s == 0)) [
        | inl e ↦ rw e (done (no_rest-IsDone bid ask s e))
        | inr e ↦ rw e (fill (ground arith) (smaller_rest-IsFill bid ask _ s refl other e))
      ])
    ])
  ]
