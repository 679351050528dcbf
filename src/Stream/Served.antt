-- ===== src/Stream/Served.antt =====
-- The subscriptions of client/scripts/ws-server.ts after any events.
use kryon.Common.{
  ℕ, suc, ◌≤◌, ◌≡◌, ◌≢◌, refl, ap, inl, inr, String, Bool, true, false, not, List, [], ◌∷◌, ◌==◌,
  str_eq, if◌then◌else◌, any, length, arith, eq_iff, Bool-cases, All, All-at, All-intro, In-keep,
}
use kryon.Matcher.Sort.{Pairwise}
use kryon.Stream.{
  Subscriptions, Server, valid_channels, is_valid_channel, delete_socket, unsubscribe_all,
  set_connected, Event, connection, message, close, tick, Reached, at_start, after,
}
use kryon.Stream.Bounded.{
  IsServed, HasOtherName, IsTidy, with_sockets-All, with_sockets-IsTidy, broadcast-IsTidy,
  on_message-IsTidy,
}

unsubscribe_all-names :
    (P : String × List ℕ → Type 0) (ws : ℕ) (subs : Subscriptions)
    → ((s t : List ℕ) (c : String) → P (c, s) → P (c, t))
    → All P subs
    → All P (unsubscribe_all ws subs)
unfolding unsubscribe_all
unsubscribe_all-names P ws [] same k = tt
unsubscribe_all-names P ws ((c, s) ∷ rest) same k =
    with_sockets-All P c (delete_socket ws s) (unsubscribe_all ws rest) (same s _ c k.0)
      (unsubscribe_all-names P ws rest same k.1)

-- The sockets that stay are others, which are connected as before.
delete_socket-connected :
    (connected : ℕ → Bool) (ws : ℕ) (s : List ℕ)
    → All (λ k. connected k ≡ true) s
    → All (λ k. set_connected connected ws false k ≡ true) (delete_socket ws s)
unfolding delete_socket
delete_socket-connected connected ws s h = All-intro _ _ λ k m.
    let (old, other) = In-keep (λ x. not (x == ws)) k s m in
    let e : (k == ws) ≡ false = ground (arith, other) in
    rw e (All-at (λ k. connected k ≡ true) k s h old)

unsubscribe_all-IsTidy :
    (markets : List ℕ) (connected : ℕ → Bool) (ws : ℕ) (subs : Subscriptions)
    → IsTidy markets connected subs
    → IsTidy markets (set_connected connected ws false) (unsubscribe_all ws subs)
unfolding unsubscribe_all
unsubscribe_all-IsTidy markets connected ws [] h = (tt, tt)
unsubscribe_all-IsTidy markets connected ws ((c, s) ∷ rest) ((served, all), (other, others)) =
    with_sockets-IsTidy markets (set_connected connected ws false) c (delete_socket ws s)
      (unsubscribe_all ws rest) (served.0, delete_socket-connected connected ws s served.1)
      (unsubscribe_all-names (HasOtherName (c, [])) ws rest (λ s t d h. h) other)
      (unsubscribe_all-IsTidy markets connected ws rest (all, others))

connection-IsTidy :
    (markets : List ℕ) (connected : ℕ → Bool) (ws : ℕ) (subs : Subscriptions)
    → IsTidy markets connected subs
    → IsTidy markets (set_connected connected ws true) subs
connection-IsTidy markets connected ws subs (all, others) = (
  All-intro _ subs (λ p m.
      let (valid, on) = All-at (IsServed markets connected) p subs all m in
      (
        valid,
        All-intro _ p.1
            (λ k n. let old = All-at (λ k. connected k ≡ true) k p.1 on n in ground (arith, old)),
      )),
  others,
)

Event-IsTidy :
    (markets : List ℕ) (s t : Server)
    → Event markets s t
    → IsTidy markets s.connected s.subscriptions
    → IsTidy markets t.connected t.subscriptions
Event-IsTidy markets s t (connection ws) h =
    connection-IsTidy markets s.connected ws s.subscriptions h
Event-IsTidy markets s t (message ws m on) h =
    on_message-IsTidy markets s.connected ws m s.subscriptions on h
Event-IsTidy markets s t (close ws) h =
    unsubscribe_all-IsTidy markets s.connected ws s.subscriptions h
Event-IsTidy markets s t (tick channel ready) h =
    broadcast-IsTidy markets s.connected channel ready s.subscriptions h

Reached-IsTidy :
    (markets : List ℕ) (s : Server) → Reached markets s → IsTidy markets s.connected s.subscriptions
Reached-IsTidy markets s at_start = (tt, tt)
Reached-IsTidy markets s (after {s = r} reach e) =
    Event-IsTidy markets r s e (Reached-IsTidy markets r reach)

-- The list without the first place where the name stands
without : String → List String → List String
without x [] = []
without x (y ∷ ys) = let rest = without x ys in if str_eq y x then ys else y ∷ rest

length-without :
    (x : String) (ys : List String)
    → any (λ y. str_eq y x) ys ≡ true
    → suc (length (without x ys)) ≡ length ys
unfolding without any
length-without x [] h = absurd (ground (arith, h))
length-without x (y ∷ ys) h = elim (Bool-cases (str_eq y x)) [
  | inl e ↦ rw e refl
  | inr e ↦ rw e (ap suc (length-without x ys (ground (arith, e, h))))
]

any-without :
    (x z : String) (ys : List String)
    → x ≢ z
    → any (λ y. str_eq y z) ys ≡ true
    → any (λ y. str_eq y z) (without x ys) ≡ true
unfolding without any
any-without x z [] other h = h
any-without x z (y ∷ ys) other h = elim (Bool-cases (str_eq y x)) [
  | inl e ↦
      let q : y ≡ x = grind (arith, eq_iff, e) in
      let f : str_eq y z ≡ false = grind (arith, eq_iff, q, other) in rw e (ground (arith, f, h))
  | inr e ↦ elim (Bool-cases (str_eq y z)) [
    | inl g ↦ rw (e, g) refl
    | inr g ↦ rw (e, g) (any-without x z ys other (ground (arith, g, h)))
  ]
]

-- Different channels, each one of a list, are no more than the list has.
length-names :
    (subs : Subscriptions) (names : List String)
    → All (λ p. any (λ v. str_eq v p.0) names ≡ true) subs
    → Pairwise HasOtherName subs
    → length subs ≤ length names
length-names [] names h k = omega arith
length-names (p ∷ subs) names h k =
    let fewer = length-without p.0 names h.0 in
    let ih =
      length-names subs (without p.0 names)
        (All-intro _ subs (λ q m.
          any-without p.0 q.0 names (All-at (HasOtherName p) q subs k.0 m) (All-at _ q subs h.1 m)))
        k.1 in
    omega (arith, fewer, ih)

-- After any events the map has no more channels than the server publishes on, each of those once, and the
-- sockets on them are all connected: a socket that closed is on none.
pub Reached-IsServed :
    (markets : List ℕ) (s : Server)
    → Reached markets s
    → (length s.subscriptions ≤ length (valid_channels markets))
      × IsTidy markets s.connected s.subscriptions
unfolding is_valid_channel
Reached-IsServed markets s reach =
    let tidy = Reached-IsTidy markets s reach in
    (
      length-names s.subscriptions (valid_channels markets)
          (All-intro _ s.subscriptions
            (λ p m. (All-at (IsServed markets s.connected) p s.subscriptions tidy.0 m).0))
          tidy.1,
      tidy,
    )
