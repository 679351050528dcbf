-- ===== src/Matcher/Book/Tests.antt =====
-- A bid that two asks of one price meet, of which the earlier one goes first.
use kryon.Common.{
  ℕ, ◌≢◌, refl, inl, inr, String, Bool, true, false, none, List, [], ◌∷◌, arith, In, keep, for_each,
  eq_iff,
}
use kryon.Matcher.Order.{RestingOrder, MatchResult}
use kryon.Matcher.Pending.{pending, add}
use kryon.Matcher.Sort.{sort, best_bid_first, best_ask_first}
use kryon.Matcher.Book.{
  match_all, final_state, remaining, book_fill, hit_resting, cross, hit_book, cross_book,
  limit_bids, limit_asks,
}
use kryon.Matcher.Book.Uncrossed.{IsUsedUp}
use kryon.Matcher.Book.Priority.{match_all-priority}

abbrev order : String → String → Bool → ℕ → ℕ → ℕ → RestingOrder
order id owner is_long size price at = record {
  id = id;
  owner = owner;
  market_id = 1;
  is_long = is_long;
  size = size;
  limit_price = price;
  reduce_only = false;
  nonce = at;
  expiry_ts = 0;
  filled_size = 0;
  created_at = at;
  signature = none;
}

abbrev bid : RestingOrder
bid = order "a:3" "a" true 5 100 3

abbrev early_ask : RestingOrder
early_ask = order "b:1" "b" false 2 90 1

abbrev late_ask : RestingOrder
late_ask = order "c:2" "c" false 9 90 2

abbrev limits : List RestingOrder
limits = late_ask ∷ early_ask ∷ bid ∷ []

abbrev late_match : MatchResult
late_match = record { maker = late_ask; taker = bid; fill_size = 3; fill_price = 90 }

late_match-In : In late_match (match_all limits [])
unfolding match_all keep sort best_bid_first best_ask_first for_each hit_book hit_resting cross_book
    cross limit_bids limit_asks final_state remaining book_fill pending add
late_match-In = inr (inl refl)

other_owner : early_ask.owner ≢ bid.owner
other_owner h = ground (arith, eq_iff "b" "a", h)

match_all-priority_example : IsUsedUp early_ask (match_all limits [])
match_all-priority_example =
    match_all-priority limits [] late_match early_ask late_match-In (inr (inl refl))
      (inl ((refl, inr (refl, omega arith)), other_owner))
