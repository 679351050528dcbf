-- ===== src/Stream/Trades.antt =====
-- The trades that `broadcastMarket` of client/scripts/ws-server.ts sends, tick after tick.
use kryon.Common.{
  ℕ, ◌≤◌, ◌<◌, ◌≡◌, String, Bool, true, Option, List, [], ◌∷◌, ◌++◌, ltb, leb, keep, arith,
  Bool-cases, inl, inr, All, All-at, All-intro, All-append, In-keep,
}
use kryon.Matcher.Sort.{IsSorted}

-- `is_buy` is missing where the order of the taker is.
pub record Trade : Type 0 where
  pub price : String
  pub size : String
  pub is_buy : Option Bool
  pub timestamp : ℕ

unfoldable pub reversed : List Trade → List Trade
reversed [] = []
reversed (t ∷ ts) = reversed ts ++ t ∷ []

abbrev newest : List Trade → ℕ → ℕ
newest [] last = last
newest (t ∷ ts) last = t.timestamp

-- The trades of a poll, newest first, after those up to `last`: what is sent, and the new `last`.
unfoldable pub broadcast_trades : List Trade → ℕ → List Trade × ℕ
unfolding reversed
broadcast_trades trades last =
    let fresh = keep (λ t. ltb last t.timestamp) trades in (reversed fresh, newest fresh last)

-- What a channel sends over some polls
unfoldable pub stream : List (List Trade) → ℕ → List Trade
unfolding broadcast_trades
stream [] last = []
stream (trades ∷ polls) last =
    let (sent, last') = broadcast_trades trades last in sent ++ stream polls last'

abbrev is_later : Trade → Trade → Bool
is_later a b = leb b.timestamp a.timestamp

abbrev is_earlier : Trade → Trade → Bool
is_earlier a b = leb a.timestamp b.timestamp

-- `ORDER BY "createdAt" DESC`
abbrev pub NewestFirst : List Trade → Type 0
NewestFirst = IsSorted is_later

-- Beyond a time, and none before one that came before it
abbrev pub IsInTime : ℕ → List Trade → Type 0
IsInTime low ts = All (λ t. low < t.timestamp) ts × IsSorted is_earlier ts

IsInTime-append :
    (low mid : ℕ) (xs ys : List Trade)
    → low ≤ mid
    → All (λ t. t.timestamp ≤ mid) xs
    → IsInTime low xs
    → IsInTime mid ys
    → IsInTime low (xs ++ ys)
IsInTime-append low mid [] ys h up k (l, m) = (
  All-intro _ ys (λ t n. let b = All-at (λ t. mid < t.timestamp) t ys l n in omega (arith, b, h)),
  m,
)
IsInTime-append low mid (x ∷ xs) ys h (u, up) ((a, b), (c, d)) (l, m) =
    let (all, sorted) = IsInTime-append low mid xs ys h up (b, d) (l, m) in
    (
      (a, all),
      (
        All-append (λ t. is_earlier x t ≡ true) xs ys c
            (All-intro _ ys
              (λ t n. let e = All-at (λ t. mid < t.timestamp) t ys l n in ground (arith, e, u))),
        sorted,
      ),
    )

newest_le :
    (low : ℕ) (t : Trade) (ts : List Trade)
    → low < t.timestamp
    → All (λ y. is_later t y ≡ true) ts
    → newest ts low ≤ t.timestamp
newest_le low t [] h k = omega (arith, h)
newest_le low t (x ∷ xs) h (c, d) = ground (arith, c)

snoc-IsSorted :
    (xs : List Trade) (t : Trade)
    → All (λ x. x.timestamp ≤ t.timestamp) xs
    → IsSorted is_earlier xs
    → IsSorted is_earlier (xs ++ t ∷ [])
snoc-IsSorted [] t h k = (tt, tt)
snoc-IsSorted (x ∷ xs) t (a, b) (c, d) = (
  All-append (λ y. is_earlier x y ≡ true) xs (t ∷ []) c (ground (arith, a), tt),
  snoc-IsSorted xs t b d,
)

-- The newest trade comes last.
reversed-IsInTime :
    (low : ℕ) (ts : List Trade)
    → All (λ t. low < t.timestamp) ts
    → NewestFirst ts
    → IsInTime low (reversed ts) × All (λ t. t.timestamp ≤ newest ts low) (reversed ts)
unfolding reversed
reversed-IsInTime low [] h k = ((tt, tt), tt)
reversed-IsInTime low (t ∷ ts) (a, b) (c, d) =
    let ((above, sorted), below) = reversed-IsInTime low ts b d in
    let top = newest_le low t ts a c in
    let older : All (λ x. x.timestamp ≤ t.timestamp) (reversed ts) =
      All-intro _ (reversed ts) (λ x m.
        let e = All-at (λ y. y.timestamp ≤ newest ts low) x (reversed ts) below m in
        omega (arith, e, top)) in
    (
      (
        All-append (λ y. low < y.timestamp) (reversed ts) (t ∷ []) above (a, tt),
        snoc-IsSorted (reversed ts) t older sorted,
      ),
      All-append (λ y. y.timestamp ≤ t.timestamp) (reversed ts) (t ∷ []) older (omega arith, tt),
    )

keep-NewestFirst : (p : Trade → Bool) (ts : List Trade) → NewestFirst ts → NewestFirst (keep p ts)
unfolding keep
keep-NewestFirst p [] h = tt
keep-NewestFirst p (t ∷ ts) (c, d) = elim (Bool-cases (p t)) [
  | inl e ↦ rw e (
    All-intro _ (keep p ts) (λ x m. All-at (λ y. is_later t y ≡ true) x ts c (In-keep p x ts m).0),
    keep-NewestFirst p ts d,
  )
  | inr e ↦ rw e (keep-NewestFirst p ts d)
]

newest_low : (low : ℕ) (ts : List Trade) → All (λ t. low < t.timestamp) ts → low ≤ newest ts low
newest_low low [] h = omega arith
newest_low low (t ∷ ts) (a, b) = omega (arith, a)

-- When each poll gives its trades newest first, what a channel sends over any polls, from a last trade on, never goes
-- back in time, and has only trades later than that last one: a trade of its millisecond that comes to the table
-- after it was sent is never sent.
pub stream-IsInTime :
    (polls : List (List Trade)) (last : ℕ)
    → All NewestFirst polls
    → IsInTime last (stream polls last)
unfolding stream
stream-IsInTime [] last h = (tt, tt)
stream-IsInTime (trades ∷ polls) last (first, others) =
    let fresh = keep (λ t. ltb last t.timestamp) trades in
    let later : All (λ t. last < t.timestamp) fresh =
      All-intro _ fresh
        (λ t m. ground (arith, (In-keep (λ t. ltb last t.timestamp) t trades m).1)) in
    let (in_time, below) = reversed-IsInTime last fresh later (keep-NewestFirst _ trades first) in
    IsInTime-append last (newest fresh last) (reversed fresh) (stream polls (newest fresh last))
      (newest_low last fresh later) below in_time (stream-IsInTime polls (newest fresh last) others)
