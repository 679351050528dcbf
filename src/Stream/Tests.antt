-- ===== src/Stream/Tests.antt =====
-- A server of one market, a socket that subscribes and leaves, and two polls.
use kryon.Common.{
  ℕ, ◌+◌, ◌-◌, ◌≤◌, ◌≡◌, ◌↔◌, refl, true, false, none, some, List, [], ◌∷◌, length, All, In,
  to_decimal, keep,
}
use kryon.Matcher.Tests.{tables, limits}
use kryon.Stream.{
  Server, valid_channels, Reached, at_start, after, connection, message, to_subscribe, on_message,
  set_connected,
}
use kryon.Stream.Bounded.{IsTidy}
use kryon.Stream.Served.{Reached-IsServed}
use kryon.Stream.Trades.{Trade, stream, NewestFirst, IsInTime, stream-IsInTime}
use kryon.Stream.Book.{BookNumbers, OrderBookLevel, order_book, IsOffered}
use kryon.Stream.Book.Offered.{order_book-IsOffered}

-- One socket connects, and asks for a channel that there is and one that there is not.
abbrev served : Server
served = record {
  subscriptions =
      on_message (1 ∷ []) 7 (to_subscribe (some "orderbook:1" ∷ some "orderbook:9" ∷ none ∷ [])) [];
  connected = set_connected (λ ws. false) 7 true;
}

served-Reached : Reached (1 ∷ []) served
served-Reached =
    after (after at_start (connection 7))
      (message 7 (to_subscribe (some "orderbook:1" ∷ some "orderbook:9" ∷ none ∷ [])) refl)

Reached-IsServed_example :
    (length served.subscriptions ≤ length (valid_channels (1 ∷ [])))
    × IsTidy (1 ∷ []) served.connected served.subscriptions
Reached-IsServed_example = Reached-IsServed (1 ∷ []) served served-Reached

abbrev trade : ℕ → Trade
trade ts = record { price = "1.0000"; size = "2.0000"; is_buy = none; timestamp = ts }

-- The second trade of millisecond 5 comes too late.
abbrev polls : List (List Trade)
polls = (trade 5 ∷ trade 3 ∷ []) ∷ (trade 6 ∷ trade 5 ∷ trade 5 ∷ trade 3 ∷ []) ∷ []

stream-run : stream polls 0 ≡ trade 3 ∷ trade 5 ∷ trade 6 ∷ []
unfolding stream keep
stream-run = refl

polls-NewestFirst : All NewestFirst polls
polls-NewestFirst = (
  ((refl, tt), (tt, tt)),
  (((refl, (refl, (refl, tt))), ((refl, (refl, tt)), ((refl, tt), (tt, tt)))), tt),
)

stream-IsInTime_example : IsInTime 0 (stream polls 0)
stream-IsInTime_example = stream-IsInTime polls 0 polls-NewestFirst

-- Whole numbers in place of doubles
abbrev numbers : BookNumbers
numbers = record {
  price_human = λ n. to_decimal n;
  remaining = λ size filled. size - filled;
  plus = λ a b. a + b;
  size_text = λ n. to_decimal n;
  is_lower = λ a b. true;
}

order_book-IsOffered_example :
    let book = order_book numbers 1 100 (tables limits []) in
    (((l : OrderBookLevel) × In l book.bids × (l.price ≡ "100"))
      ↔ IsOffered numbers true 1 100 (tables limits []) "100")
    × (((l : OrderBookLevel) × In l book.asks × (l.price ≡ "100"))
        ↔ IsOffered numbers false 1 100 (tables limits []) "100")
order_book-IsOffered_example = order_book-IsOffered numbers 1 100 (tables limits []) "100"
