-- ===== src/Matcher/Book/Volume.antt =====
-- `matchAll` never trades more of an order than was left of it.
use kryon.Common.{
  ℕ, ◌+◌, ◌≤◌, ◌≡◌, ◌≢◌, refl, sym, ap, subst, ◌⊎◌, inl, inr, String, List, [], ◌∷◌, ◌++◌, true,
  arith, if◌then◌else◌, In, In-append_left, In-append_right, str_eq, eq_iff, Bool-cases, leb,
}
use kryon.Matcher.Order.{RestingOrder, MatchResult}
use kryon.Matcher.Pending.{pending, pending-add, add}
use kryon.Matcher.Book.{MatchState, remaining, book_fill, final_state, match_all, empty}
use kryon.Matcher.Book.Cases.{IsFill, market_match, limit_match}
use kryon.Matcher.Book.Loops.{final_state_inv}

-- The size that a list of matches trades of the order with the id `k`.
unfoldable pub traded : String → List MatchResult → ℕ
traded k [] = 0
traded k (m ∷ ms) =
    (if str_eq m.maker.id k then m.fill_size else 0)
    + (if str_eq m.taker.id k then m.fill_size else 0)
    + traded k ms

-- An id belongs to one order: it is the primary key of the table.
abbrev pub IsKeyed : List RestingOrder → Type 0
IsKeyed orders = (a b : RestingOrder) → In a orders → In b orders → a.id ≡ b.id → a ≡ b

-- No order has been filled beyond its size.
abbrev pub IsFillable : List RestingOrder → Type 0
IsFillable orders = (o : RestingOrder) → In o orders → o.filled_size ≤ o.size

traded-append :
    (k : String) (ms : List MatchResult) (m : MatchResult)
    → traded k (ms ++ m ∷ []) ≡ traded k ms + traded k (m ∷ [])
unfolding traded
traded-append k [] m = ground arith
traded-append k (n ∷ ns) m = ground (arith, traded-append k ns m)

pending-book_fill :
    (k : String) (a b : RestingOrder) (m : MatchResult) (s : MatchState)
    → pending k (book_fill a b m s).pending_fills
      ≡ pending k s.pending_fills
        + (if str_eq a.id k then m.fill_size else 0)
        + (if str_eq b.id k then m.fill_size else 0)
unfolding book_fill
pending-book_fill k a b m s = ground (
  arith,
  pending-add b.id k m.fill_size (add a.id m.fill_size s.pending_fills),
  pending-add a.id k m.fill_size s.pending_fills,
)

-- The parties of a match are the two orders of its fill, in either order.
abbrev Parties : RestingOrder → RestingOrder → MatchResult → Type 0
Parties a b m = ((m.maker ≡ a) × (m.taker ≡ b)) ⊎ ((m.maker ≡ b) × (m.taker ≡ a))

traded-book_fill :
    (k : String) (a b : RestingOrder) (m : MatchResult) (s : MatchState)
    → Parties a b m
    → traded k (book_fill a b m s).results
      ≡ traded k s.results
        + (if str_eq a.id k then m.fill_size else 0)
        + (if str_eq b.id k then m.fill_size else 0)
unfolding book_fill traded
traded-book_fill k a b m s (inl (x, y)) = rw (traded-append, x, y) (ground arith)
traded-book_fill k a b m s (inr (x, y)) = rw (traded-append, x, y) (ground arith)

limit_match-Parties :
    (bid ask : RestingOrder) (s : MatchState) → Parties bid ask (limit_match bid ask s)
limit_match-Parties bid ask s = elim (Bool-cases (leb bid.created_at ask.created_at)) [
  | inl e ↦ rw e (inl (refl, refl))
  | inr e ↦ rw e (inr (refl, refl))
]

-- What is pending for an order is what the matches so far trade of it.
abbrev IsTraced : MatchState → Type 0
IsTraced s = (k : String) → pending k s.pending_fills ≡ traded k s.results

pub final_state-IsTraced :
    (limits markets : List RestingOrder) (k : String)
    → pending k (final_state limits markets).pending_fills ≡ traded k (match_all limits markets)
unfolding match_all
final_state-IsTraced limits markets =
    final_state_inv IsTraced limits markets
      (λ mo o s i j sides f h k. rw (
        pending-book_fill,
        traded-book_fill k o mo (market_match o mo s) s (inl (refl, refl)),
        h k,
      ))
      (λ bid ask s i j long short price f h k. rw (
        pending-book_fill,
        traded-book_fill k bid ask (limit_match bid ask s) s (limit_match-Parties bid ask s),
        h k,
      ))
      (λ k. unfold pending traded in refl)

module _ (orders : List RestingOrder) (keyed : IsKeyed orders) where
  record Fits (s : MatchState) : Type 0 where
    within :
        (o : RestingOrder) → In o orders → o.filled_size + pending o.id s.pending_fills ≤ o.size

  left_of :
      (a : RestingOrder) (n : ℕ) (s : MatchState)
      → n ≤ remaining a s
      → a.filled_size + pending a.id s.pending_fills ≤ a.size
      → a.filled_size + (pending a.id s.pending_fills + n) ≤ a.size
  unfolding remaining
  left_of a n s h k = omega arith

  abbrev Holds : MatchState → ℕ → RestingOrder → Type 0
  Holds s n o = o.filled_size + (pending o.id s.pending_fills + n) ≤ o.size

  own_left :
      (a o : RestingOrder) (n : ℕ) (s : MatchState)
      → In a orders
      → In o orders
      → str_eq a.id o.id ≡ true
      → n ≤ remaining a s
      → o.filled_size + pending o.id s.pending_fills ≤ o.size
      → Holds s n o
  own_left a o n s ia io e h k =
      let same = keyed a o ia io ((eq_iff a.id o.id).0 e) in
      subst (Holds s n) same (
        left_of a n s h
          (subst (λ q. q.filled_size + pending q.id s.pending_fills ≤ q.size) (sym same) k))

  book_fill-within :
      (a b o : RestingOrder) (m : MatchResult) (s : MatchState)
      → In a orders
      → In b orders
      → In o orders
      → a.is_long ≢ b.is_long
      → IsFill a b m s
      → o.filled_size + pending o.id s.pending_fills ≤ o.size
      → o.filled_size + pending o.id (book_fill a b m s).pending_fills ≤ o.size
  book_fill-within a b o m s ia ib io sides f h =
      rw pending-book_fill (elim (Bool-cases (str_eq a.id o.id)) [
        | inl x ↦ elim (Bool-cases (str_eq b.id o.id)) [
          | inl y ↦ absurd (
              sides (
                ap (λ (q : RestingOrder). q.is_long)
                  (keyed a b ia ib (cc ((eq_iff a.id o.id).0 x, (eq_iff b.id o.id).0 y)))))
          | inr y ↦ rw (x, y) (omega (arith, own_left a o m.fill_size s ia io x f.first_left h))
        ]
        | inr x ↦ elim (Bool-cases (str_eq b.id o.id)) [
          | inl y ↦ rw (x, y) (omega (arith, own_left b o m.fill_size s ib io y f.second_left h))
          | inr y ↦ rw (x, y) (omega arith)
        ]
      ])

  book_fill-Fits :
      (a b : RestingOrder) (m : MatchResult) (s : MatchState)
      → In a orders
      → In b orders
      → a.is_long ≢ b.is_long
      → IsFill a b m s
      → Fits s
      → Fits (book_fill a b m s)
  book_fill-Fits a b m s ia ib sides f h = record {
    within = λ o io. book_fill-within a b o m s ia ib io sides f (h.within o io);
  }

  Fits-empty : IsFillable orders → Fits empty
  unfolding traded pending
  Fits-empty fillable = record { within = λ o io. omega (arith, fillable o io) }

final_state-Fits :
    (limits markets : List RestingOrder) (keyed : IsKeyed (limits ++ markets))
    → IsFillable (limits ++ markets)
    → Fits (limits ++ markets) keyed (final_state limits markets)
final_state-Fits limits markets keyed fillable =
    final_state_inv (Fits (limits ++ markets) keyed) limits markets
      (λ mo o s i j sides f h.
        book_fill-Fits (limits ++ markets) keyed o mo _ s (In-append_left o limits markets i)
          (In-append_right mo limits markets j) (λ e. ground arith) f h)
      (λ bid ask s i j long short price f h.
        book_fill-Fits (limits ++ markets) keyed bid ask _ s (In-append_left bid limits markets i)
          (In-append_left ask limits markets j) (λ e. cc) f h)
      (Fits-empty (limits ++ markets) keyed fillable)

-- For orders with distinct ids, none filled beyond its size, the matches that `matchAll` returns
-- trade, together with what was filled before, at most the size of each order.
pub match_all-fits :
    (limits markets : List RestingOrder)
    → IsKeyed (limits ++ markets)
    → IsFillable (limits ++ markets)
    → (o : RestingOrder) → In o (limits ++ markets)
    → o.filled_size + traded o.id (match_all limits markets) ≤ o.size
match_all-fits limits markets keyed fillable o i =
    rw (← final_state-IsTraced limits markets o.id)
      ((final_state-Fits limits markets keyed fillable).within o i)
