-- ===== src/Matcher/Book/Fairness.antt =====
-- Who trades with whom in `matchAll`, and at which price.
use kryon.Common.{
  ℕ, ◌≤◌, ◌<◌, ◌≡◌, ◌≢◌, refl, sym, ◌⊎◌, inl, inr, List, [], ◌∷◌, true, false, arith, In, All,
  All-append, leb, Bool-cases,
}
use kryon.Matcher.Order.{RestingOrder, MatchResult}
use kryon.Matcher.Book.{MatchState, book_fill, match_all}
use kryon.Matcher.Book.Cases.{IsFill, market_match, limit_match}
use kryon.Matcher.Book.Loops.{final_state_inv}

-- The price is within the limit of the order: a buyer pays no more, a seller gets no less.
pub record Accepts (o : RestingOrder) (price : ℕ) : Type 0 where
  pub as_buyer : o.is_long ≡ true → price ≤ o.limit_price
  pub as_seller : o.is_long ≡ false → o.limit_price ≤ price

module _ (limits markets : List RestingOrder) where
  pub record IsFair (m : MatchResult) : Type 0 where
    pub positive : 0 < m.fill_size
    pub owners : m.maker.owner ≢ m.taker.owner
    pub sides : m.maker.is_long ≢ m.taker.is_long
    pub resting : In m.maker limits
    pub at_maker_price : m.fill_price ≡ m.maker.limit_price
    pub taker_accepts : In m.taker markets ⊎ (In m.taker limits × Accepts m.taker m.fill_price)

  market_match-IsFair :
      (mo o : RestingOrder) (s : MatchState)
      → In o limits
      → In mo markets
      → o.is_long ≢ mo.is_long
      → IsFill o mo (market_match o mo s) s
      → IsFair (market_match o mo s)
  market_match-IsFair mo o s i j sides f = record {
    positive = f.positive;
    owners = f.owners;
    sides = sides;
    resting = i;
    at_maker_price = refl;
    taker_accepts = inl j;
  }

  limit_match-IsFair :
      (bid ask : RestingOrder) (s : MatchState)
      → In bid limits
      → In ask limits
      → bid.is_long ≡ true
      → ask.is_long ≡ false
      → ask.limit_price ≤ bid.limit_price
      → IsFill bid ask (limit_match bid ask s) s
      → IsFair (limit_match bid ask s)
  limit_match-IsFair bid ask s i j long short price f =
      elim (Bool-cases (leb bid.created_at ask.created_at)) [
        | inl e ↦ rw e (record {
          positive = f.positive;
          owners = f.owners;
          sides = λ q. cc;
          resting = i;
          at_maker_price = refl;
          taker_accepts = inr (j, record { as_buyer = λ q. cc; as_seller = λ _. price });
        })
        | inr e ↦ rw e (record {
          positive = f.positive;
          owners = λ q. f.owners (sym q);
          sides = λ q. cc;
          resting = j;
          at_maker_price = refl;
          taker_accepts = inr (i, record { as_buyer = λ _. price; as_seller = λ q. cc });
        })
      ]

  AllFair : MatchState → Type 0
  AllFair s = All IsFair s.results

  book_fill-AllFair :
      (a b : RestingOrder) (m : MatchResult) (s : MatchState)
      → IsFair m
      → AllFair s
      → AllFair (book_fill a b m s)
  unfolding book_fill AllFair
  book_fill-AllFair a b m s f h = All-append IsFair s.results (m ∷ []) h (f, tt)

  -- Every match that `matchAll` returns trades a positive size between two owners and two sides; its
  -- maker is a resting limit order and gives the price; its taker is a market order, or a limit order
  -- whose limit the price respects.
  pub match_all-IsFair : All IsFair (match_all limits markets)
  unfolding match_all AllFair
  match_all-IsFair =
      final_state_inv AllFair limits markets
        (λ mo o s i j sides f h.
          book_fill-AllFair o mo _ s (market_match-IsFair mo o s i j (λ e. ground arith) f) h)
        (λ bid ask s i j long short price f h.
          book_fill-AllFair bid ask _ s (limit_match-IsFair bid ask s i j long short price f) h)
        tt
