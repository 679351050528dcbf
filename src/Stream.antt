-- ===== src/Stream.antt =====
-- client/scripts/ws-server.ts: the subscriptions of the sockets, and what a tick of the broadcast loop sends.
pub mod Bounded
pub mod Served
pub mod Trades
pub mod Book
pub mod Tests
use kryon.Common.{
  ℕ, String, ◌<>◌, Bool, true, false, not, Option, none, some, List, [], ◌∷◌, ◌++◌, ◌==◌, str_eq,
  if◌then◌else◌, any, keep, to_decimal, ◌≡◌,
}

-- The map `subscriptions`: the sockets of each channel
abbrev pub Subscriptions : Type 0
Subscriptions = List (String × List ℕ)

unfoldable pub valid_channels : List ℕ → List String
valid_channels [] = []
valid_channels (id ∷ markets) =
    ("orderbook:" <> to_decimal id) ∷ ("trades:" <> to_decimal id) ∷ valid_channels markets

unfoldable pub is_valid_channel : List ℕ → String → Bool
unfolding valid_channels
is_valid_channel markets c = any (λ v. str_eq v c) (valid_channels markets)

-- `Set.add` and `Set.delete`
unfoldable pub add_socket : ℕ → List ℕ → List ℕ
add_socket ws sockets = if any (λ s. s == ws) sockets then sockets else sockets ++ ws ∷ []

unfoldable pub delete_socket : ℕ → List ℕ → List ℕ
delete_socket ws = keep (λ s. not (s == ws))

unfoldable pub subscribe : ℕ → String → Subscriptions → Subscriptions
unfolding add_socket
subscribe ws channel [] = (channel, add_socket ws []) ∷ []
subscribe ws channel ((c, sockets) ∷ rest) =
    let others = subscribe ws channel rest in
    if str_eq c channel then (c, add_socket ws sockets) ∷ rest else (c, sockets) ∷ others

-- A channel goes once nobody is left on it.
abbrev pub with_sockets : String → List ℕ → Subscriptions → Subscriptions
with_sockets c [] rest = rest
with_sockets c (s ∷ ss) rest = (c, s ∷ ss) ∷ rest

unfoldable pub unsubscribe : ℕ → String → Subscriptions → Subscriptions
unfolding delete_socket
unsubscribe ws channel [] = []
unsubscribe ws channel ((c, sockets) ∷ rest) =
    let others = unsubscribe ws channel rest in
    if str_eq c channel
    then with_sockets c (delete_socket ws sockets) rest
    else (c, sockets) ∷ others

unfoldable pub unsubscribe_all : ℕ → Subscriptions → Subscriptions
unfolding delete_socket
unsubscribe_all ws [] = []
unsubscribe_all ws ((c, sockets) ∷ rest) =
    let others = unsubscribe_all ws rest in with_sockets c (delete_socket ws sockets) others

-- Who receives a broadcast, of the sockets that are `ready`, and the map after it: the others are dropped, and the
-- channel stays.
unfoldable pub receivers : String → (ℕ → Bool) → Subscriptions → List ℕ
receivers channel ready [] = []
receivers channel ready ((c, sockets) ∷ rest) =
    let others = receivers channel ready rest in
    if str_eq c channel then keep ready sockets else others

unfoldable pub broadcast : String → (ℕ → Bool) → Subscriptions → Subscriptions
broadcast channel ready [] = []
broadcast channel ready ((c, sockets) ∷ rest) =
    let others = broadcast channel ready rest in
    if str_eq c channel then (c, keep ready sockets) ∷ rest else (c, sockets) ∷ others

-- A message that parses, its channels with those that are no texts as `none`
pub data ClientMessage : Type 0 where
  ping other_message : ClientMessage
  to_subscribe to_unsubscribe : List (Option String) → ClientMessage

unfoldable pub subscribe_each : List ℕ → ℕ → List (Option String) → Subscriptions → Subscriptions
unfolding subscribe is_valid_channel
subscribe_each markets ws [] subs = subs
subscribe_each markets ws (none ∷ rest) subs = subscribe_each markets ws rest subs
subscribe_each markets ws (some c ∷ rest) subs =
    let more = subscribe_each markets ws rest in
    if is_valid_channel markets c then more (subscribe ws c subs) else more subs

unfoldable pub unsubscribe_each : ℕ → List (Option String) → Subscriptions → Subscriptions
unfolding unsubscribe
unsubscribe_each ws [] subs = subs
unsubscribe_each ws (none ∷ rest) subs = unsubscribe_each ws rest subs
unsubscribe_each ws (some c ∷ rest) subs = unsubscribe_each ws rest (unsubscribe ws c subs)

unfoldable pub on_message : List ℕ → ℕ → ClientMessage → Subscriptions → Subscriptions
unfolding subscribe_each unsubscribe_each
on_message markets ws ping subs = subs
on_message markets ws other_message subs = subs
on_message markets ws (to_subscribe channels) subs = subscribe_each markets ws channels subs
on_message markets ws (to_unsubscribe channels) subs = unsubscribe_each ws channels subs

-- The server: its map, and the sockets that are connected
pub record Server : Type 0 where
  pub subscriptions : Subscriptions
  pub connected : ℕ → Bool

abbrev pub set_connected : (ℕ → Bool) → ℕ → Bool → ℕ → Bool
set_connected connected ws b k = if k == ws then b else connected k

-- One event: a connection, a message of a connected socket, the close or an error of a socket, a broadcast.
pub data Event (markets : List ℕ) : Server → Server → Type 0 where
  connection :
      {s : Server} (ws : ℕ)
      → Event markets s (record s { connected = set_connected s.connected ws true })
  message :
      {s : Server} (ws : ℕ) (m : ClientMessage)
      → s.connected ws ≡ true
      → Event markets s (record s { subscriptions = on_message markets ws m s.subscriptions })
  close :
      {s : Server} (ws : ℕ)
      → Event markets s (record {
        subscriptions = unsubscribe_all ws s.subscriptions;
        connected = set_connected s.connected ws false;
      })
  tick :
      {s : Server} (channel : String) (ready : ℕ → Bool)
      → Event markets s (record s { subscriptions = broadcast channel ready s.subscriptions })

abbrev pub started : Server
started = record { subscriptions = []; connected = λ ws. false }

pub data Reached (markets : List ℕ) : Server → Type 0 where
  at_start : Reached markets started
  after : {s t : Server} → Reached markets s → Event markets s t → Reached markets t
