-- ===== src/Matcher/Book/Progress.antt =====
-- Progress of `matchAll`: what is pending grows, and each fill uses up one of its orders.
use kryon.Common.{
  ℕ, ◌+◌, ◌≤◌, ◌<◌, ◌≡◌, ◌⊎◌, inl, inr, String, List, arith, if◌then◌else◌, Flow, continue, break,
  for_each, for_each_inv, ◌==◌,
}
use text.Mathlib.TextPositions.{eq_refl}
use native.Mathlib.Nat.{le_trans, le_refl}
use kryon.Matcher.Order.{RestingOrder, MatchResult}
use kryon.Matcher.Pending.{pending, pending-add, add}
use kryon.Matcher.Book.{MatchState, remaining, book_fill, hit_resting, cross}
use kryon.Matcher.Book.Cases.{IsFill, IsDone, hit_resting_cases, cross_cases}

-- What is pending only grows.
pub record Grows (s t : MatchState) : Type 0 where
  pub at : (k : String) → pending k s.pending_fills ≤ pending k t.pending_fills

pub Grows-refl : (s : MatchState) → Grows s s
Grows-refl s = record { at = λ k. le_refl _ }

pub Grows-trans : (s t u : MatchState) → Grows s t → Grows t u → Grows s u
Grows-trans s t u g h = record { at = λ k. le_trans (g.at k) (h.at k) }

pub book_fill-Grows :
    (a b : RestingOrder) (m : MatchResult) (s : MatchState) → Grows s (book_fill a b m s)
unfolding book_fill
book_fill-Grows a b m s = record {
  at = λ k. ground (
    arith,
    pending-add b.id k m.fill_size (add a.id m.fill_size s.pending_fills),
    pending-add a.id k m.fill_size s.pending_fills,
  );
}

pub book_fill-pays :
    (a b : RestingOrder) (m : MatchResult) (s : MatchState)
    → (pending a.id s.pending_fills + m.fill_size ≤ pending a.id (book_fill a b m s).pending_fills)
      × (pending b.id s.pending_fills + m.fill_size
          ≤ pending b.id (book_fill a b m s).pending_fills)
unfolding book_fill
book_fill-pays a b m s =
    (simp (pending-add, eq_refl) (omega arith), simp (pending-add, eq_refl) (omega arith))

pub used_up :
    (o : RestingOrder) (n : ℕ) (s t : MatchState)
    → remaining o s ≤ n
    → pending o.id s.pending_fills + n ≤ pending o.id t.pending_fills
    → remaining o t ≡ 0
unfolding remaining
used_up o n s t h k = omega arith

-- The fill uses up one of its two orders.
pub book_fill-IsDone :
    (a b : RestingOrder) (m : MatchResult) (s : MatchState)
    → IsFill a b m s
    → IsDone a b (book_fill a b m s)
book_fill-IsDone a b m s f = elim f.exhausts [
  | inl h ↦ inr (inl (used_up a m.fill_size s _ h (book_fill-pays a b m s).0))
  | inr h ↦ inr (inr (used_up b m.fill_size s _ h (book_fill-pays a b m s).1))
]

pub stays_used :
    (o : RestingOrder) (s t : MatchState) → Grows s t → remaining o s ≡ 0 → remaining o t ≡ 0
unfolding remaining
stays_used o s t g h = omega (arith, g.at o.id)

-- The pair cannot be matched: it is done, or the prices do not cross.
abbrev pub IsApart : RestingOrder → RestingOrder → MatchState → Type 0
IsApart bid ask s = (bid.limit_price < ask.limit_price) ⊎ IsDone bid ask s

pub IsDone-Grows : (a b : RestingOrder) (s t : MatchState) → Grows s t → IsDone a b s → IsDone a b t
IsDone-Grows a b s t g (inl e) = inl e
IsDone-Grows a b s t g (inr (inl h)) = inr (inl (stays_used a s t g h))
IsDone-Grows a b s t g (inr (inr h)) = inr (inr (stays_used b s t g h))

pub IsApart-Grows :
    (a b : RestingOrder) (s t : MatchState) → Grows s t → IsApart a b s → IsApart a b t
IsApart-Grows a b s t g (inl h) = inl h
IsApart-Grows a b s t g (inr h) = inr (IsDone-Grows a b s t g h)

pub cross-Grows : (bid ask : RestingOrder) (s : MatchState) → Grows s (cross bid ask s).1
cross-Grows bid ask s =
    cross_cases (λ r. Grows s r.1) bid ask s (λ _. Grows-refl s) (λ _. Grows-refl s)
      (λ _ _. book_fill-Grows bid ask _ s)

pub hit_resting-Grows : (mo o : RestingOrder) (s : MatchState) → Grows s (hit_resting mo o s).1
hit_resting-Grows mo o s =
    hit_resting_cases (λ r. Grows s r.1) mo o s (λ _. Grows-refl s) (λ _. book_fill-Grows o mo _ s)

pub for_each-Grows :
    (body : RestingOrder → MatchState → Flow × MatchState)
    → ((o : RestingOrder) (s : MatchState) → Grows s (body o s).1)
    → (os : List RestingOrder) (s : MatchState) → Grows s (for_each body os s)
for_each-Grows body step os s =
    for_each_inv (Grows s) body os (λ o t _ g. Grows-trans s t _ g (step o t)) s (Grows-refl s)

-- A stop comes with a used up `bid`.
pub stops_used_up :
    (o : RestingOrder) (s : MatchState)
    → (if remaining o s == 0 then break else continue) ≡ break
    → remaining o s ≡ 0
stops_used_up o s h = ground arith
