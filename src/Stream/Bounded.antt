-- ===== src/Stream/Bounded.antt =====
-- The memory that the subscriptions of client/scripts/ws-server.ts take.
use kryon.Common.{
  ℕ, ◌≡◌, ◌≢◌, inl, inr, String, Bool, true, Option, none, some, List, [], ◌∷◌, ◌==◌, str_eq, any,
  keep, arith, eq_iff, Bool-cases, All, All-append,
}
use kryon.Matcher.Sort.{Pairwise}
use kryon.Stream.{
  Subscriptions, is_valid_channel, add_socket, delete_socket, subscribe, with_sockets, unsubscribe,
  broadcast, ClientMessage, ping, other_message, to_subscribe, to_unsubscribe, subscribe_each,
  unsubscribe_each, on_message,
}

-- A channel that the server publishes on, with connected sockets alone
abbrev pub IsServed : List ℕ → (ℕ → Bool) → String × List ℕ → Type 0
IsServed markets connected (c, sockets) =
    (is_valid_channel markets c ≡ true) × All (λ ws. connected ws ≡ true) sockets

abbrev pub HasOtherName : String × List ℕ → String × List ℕ → Type 0
HasOtherName p q = p.0 ≢ q.0

abbrev pub IsTidy : List ℕ → (ℕ → Bool) → Subscriptions → Type 0
IsTidy markets connected subs = All (IsServed markets connected) subs × Pairwise HasOtherName subs

All-keep : {A : Type 0} (P : A → Type 0) (p : A → Bool) (xs : List A) → All P xs → All P (keep p xs)
unfolding keep
All-keep P p [] h = tt
All-keep P p (x ∷ xs) h = elim (Bool-cases (p x)) [
  | inl e ↦ rw e (h.0, All-keep P p xs h.1)
  | inr e ↦ rw e (All-keep P p xs h.1)
]

add_socket-All :
    (P : ℕ → Type 0) (ws : ℕ) (sockets : List ℕ)
    → P ws
    → All P sockets
    → All P (add_socket ws sockets)
unfolding add_socket
add_socket-All P ws sockets h k = elim (Bool-cases (any (λ s. s == ws) sockets)) [
  | inl e ↦ rw e k
  | inr e ↦ rw e (All-append P sockets (ws ∷ []) k (h, tt))
]

pub with_sockets-All :
    (P : String × List ℕ → Type 0) (c : String) (s : List ℕ) (rest : Subscriptions)
    → P (c, s)
    → All P rest
    → All P (with_sockets c s rest)
with_sockets-All P c [] rest h k = k
with_sockets-All P c (x ∷ xs) rest h k = (h, k)

module _ (markets : List ℕ) (connected : ℕ → Bool) where
  -- The names of a map after a subscription are those of before and the channel.
  subscribe-names :
      (P : String × List ℕ → Type 0) (ws : ℕ) (channel : String) (subs : Subscriptions)
      → ((s t : List ℕ) (c : String) → P (c, s) → P (c, t))
      → ((s : List ℕ) → P (channel, s))
      → All P subs
      → All P (subscribe ws channel subs)
  unfolding subscribe
  subscribe-names P ws channel [] same h k = (h _, tt)
  subscribe-names P ws channel ((c, s) ∷ rest) same h k = elim (Bool-cases (str_eq c channel)) [
    | inl e ↦ rw e (same s _ c k.0, k.1)
    | inr e ↦ rw e (k.0, subscribe-names P ws channel rest same h k.1)
  ]

  subscribe-IsTidy :
      (ws : ℕ) (channel : String) (subs : Subscriptions)
      → connected ws ≡ true
      → is_valid_channel markets channel ≡ true
      → IsTidy markets connected subs
      → IsTidy markets connected (subscribe ws channel subs)
  unfolding subscribe
  subscribe-IsTidy ws channel [] on valid h =
      (((valid, add_socket-All (λ s. connected s ≡ true) ws [] on tt), tt), (tt, tt))
  subscribe-IsTidy ws channel ((c, s) ∷ rest) on valid ((served, all), (other, others)) =
      elim (Bool-cases (str_eq c channel)) [
        | inl e ↦ rw e (
          ((served.0, add_socket-All (λ s. connected s ≡ true) ws s on served.1), all),
          (other, others),
        )
        | inr e ↦
            let ih = subscribe-IsTidy ws channel rest on valid (all, others) in
            let apart : c ≢ channel = λ q. grind (arith, eq_iff, e, q) in
            rw e (
              (served, ih.0),
              (
                subscribe-names (HasOtherName (c, s)) ws channel rest (λ s t d h. h) (λ t. apart)
                    other,
                ih.1,
              ),
            )
      ]

  -- A map of fewer channels, or of fewer sockets on a channel, is as tidy.
  pub with_sockets-IsTidy :
      (c : String) (s : List ℕ) (rest : Subscriptions)
      → IsServed markets connected (c, s)
      → All (HasOtherName (c, [])) rest
      → IsTidy markets connected rest
      → IsTidy markets connected (with_sockets c s rest)
  with_sockets-IsTidy c [] rest h other k = k
  with_sockets-IsTidy c (x ∷ xs) rest h other k = ((h, k.0), (other, k.1))

  unsubscribe-names :
      (P : String × List ℕ → Type 0) (ws : ℕ) (channel : String) (subs : Subscriptions)
      → ((s t : List ℕ) (c : String) → P (c, s) → P (c, t))
      → All P subs
      → All P (unsubscribe ws channel subs)
  unfolding unsubscribe
  unsubscribe-names P ws channel [] same k = tt
  unsubscribe-names P ws channel ((c, s) ∷ rest) same k = elim (Bool-cases (str_eq c channel)) [
    | inl e ↦ rw e (with_sockets-All P c (delete_socket ws s) rest (same s _ c k.0) k.1)
    | inr e ↦ rw e (k.0, unsubscribe-names P ws channel rest same k.1)
  ]

  unsubscribe-IsTidy :
      (ws : ℕ) (channel : String) (subs : Subscriptions)
      → IsTidy markets connected subs
      → IsTidy markets connected (unsubscribe ws channel subs)
  unfolding unsubscribe delete_socket
  unsubscribe-IsTidy ws channel [] h = h
  unsubscribe-IsTidy ws channel ((c, s) ∷ rest) ((served, all), (other, others)) =
      elim (Bool-cases (str_eq c channel)) [
        | inl e ↦ rw e (
            with_sockets-IsTidy c (delete_socket ws s) rest
              (served.0, All-keep (λ k. connected k ≡ true) _ s served.1) other (all, others))
        | inr e ↦
            let ih = unsubscribe-IsTidy ws channel rest (all, others) in
            rw e (
              (served, ih.0),
              (unsubscribe-names (HasOtherName (c, s)) ws channel rest (λ s t d h. h) other, ih.1),
            )
      ]

  broadcast-names :
      (P : String × List ℕ → Type 0) (channel : String) (ready : ℕ → Bool) (subs : Subscriptions)
      → ((s t : List ℕ) (c : String) → P (c, s) → P (c, t))
      → All P subs
      → All P (broadcast channel ready subs)
  unfolding broadcast
  broadcast-names P channel ready [] same k = tt
  broadcast-names P channel ready ((c, s) ∷ rest) same k = elim (Bool-cases (str_eq c channel)) [
    | inl e ↦ rw e (same s _ c k.0, k.1)
    | inr e ↦ rw e (k.0, broadcast-names P channel ready rest same k.1)
  ]

  pub broadcast-IsTidy :
      (channel : String) (ready : ℕ → Bool) (subs : Subscriptions)
      → IsTidy markets connected subs
      → IsTidy markets connected (broadcast channel ready subs)
  unfolding broadcast
  broadcast-IsTidy channel ready [] h = h
  broadcast-IsTidy channel ready ((c, s) ∷ rest) ((served, all), (other, others)) =
      elim (Bool-cases (str_eq c channel)) [
        | inl e ↦ rw e (
          ((served.0, All-keep (λ k. connected k ≡ true) ready s served.1), all),
          (other, others),
        )
        | inr e ↦
            let ih = broadcast-IsTidy channel ready rest (all, others) in
            rw e (
              (served, ih.0),
              (broadcast-names (HasOtherName (c, s)) channel ready rest (λ s t d h. h) other, ih.1),
            )
      ]

  subscribe_each-IsTidy :
      (ws : ℕ) (channels : List (Option String)) (subs : Subscriptions)
      → connected ws ≡ true
      → IsTidy markets connected subs
      → IsTidy markets connected (subscribe_each markets ws channels subs)
  unfolding subscribe_each
  subscribe_each-IsTidy ws [] subs on h = h
  subscribe_each-IsTidy ws (none ∷ rest) subs on h = subscribe_each-IsTidy ws rest subs on h
  subscribe_each-IsTidy ws (some c ∷ rest) subs on h =
      elim (Bool-cases (is_valid_channel markets c)) [
        | inl e ↦ rw e (
            subscribe_each-IsTidy ws rest (subscribe ws c subs) on
              (subscribe-IsTidy ws c subs on e h))
        | inr e ↦ rw e (subscribe_each-IsTidy ws rest subs on h)
      ]

  unsubscribe_each-IsTidy :
      (ws : ℕ) (channels : List (Option String)) (subs : Subscriptions)
      → IsTidy markets connected subs
      → IsTidy markets connected (unsubscribe_each ws channels subs)
  unfolding unsubscribe_each
  unsubscribe_each-IsTidy ws [] subs h = h
  unsubscribe_each-IsTidy ws (none ∷ rest) subs h = unsubscribe_each-IsTidy ws rest subs h
  unsubscribe_each-IsTidy ws (some c ∷ rest) subs h =
      unsubscribe_each-IsTidy ws rest (unsubscribe ws c subs) (unsubscribe-IsTidy ws c subs h)

  pub on_message-IsTidy :
      (ws : ℕ) (m : ClientMessage) (subs : Subscriptions)
      → connected ws ≡ true
      → IsTidy markets connected subs
      → IsTidy markets connected (on_message markets ws m subs)
  unfolding on_message
  on_message-IsTidy ws ping subs on h = h
  on_message-IsTidy ws other_message subs on h = h
  on_message-IsTidy ws (to_subscribe channels) subs on h =
      subscribe_each-IsTidy ws channels subs on h
  on_message-IsTidy ws (to_unsubscribe channels) subs on h =
      unsubscribe_each-IsTidy ws channels subs h
