-- ===== src/Liquidation.antt =====
-- client/lib/market/liquidation-sizing.ts: the sizes at which the keeper tries to close a position.
-- Sizes and prices are natural numbers; the equity of an account may be negative.
pub mod Keeper
pub mod Needed
pub mod Tests
use kryon.Common.{
  ℕ, ◌*◌, ◌/◌, ◌^◌, ◌≤◌, ◌<◌, ◌≡◌, Bool, not, ◌&&◌, List, [], ◌∷◌, ◌++◌, ltb, leb, ◌==◌,
  if◌then◌else◌, keep, any, arith, Option, none, some, All, In, Bool-cases, true, false, inl, inr,
}
use kryon.Common.Int.{ℤ, pos_part, ◌-ℤ◌}
use kryon.Matcher.Sort.{sort}

abbrev pub safety_num : ℕ
safety_num = 125

abbrev pub safety_den : ℕ
safety_den = 100

abbrev pub price_precision : ℕ
price_precision = 10 ^ 18

pub record SizingPosition : Type 0 where
  pub size : ℕ

pub record SizingHealth : Type 0 where
  pub equity : ℤ
  pub maintenance_margin_required : ℤ

-- `[...new Set(xs)]`: the first of equal values stays.
unfoldable pub distinct : List ℕ → List ℕ
distinct [] = []
distinct (x ∷ xs) = x ∷ keep (λ y. not (y == x)) (distinct xs)

-- The size that the source takes for the minimum, with the safety margin, where there is one. A
-- shortfall that is not positive has the positive part 0.
unfoldable pub min_sizes : SizingPosition → ℕ → SizingHealth → List ℕ
unfolding ◌-ℤ◌
min_sizes position price health =
    let shortfall = pos_part (health.maintenance_margin_required -ℤ health.equity) in
    let notional = position.size * price / price_precision in
    let min_size = position.size * shortfall / notional * safety_num / safety_den in
    if ltb 0 shortfall && ltb 0 notional && ltb 0 min_size && ltb min_size position.size
    then min_size ∷ []
    else []

unfoldable pub close_size_ladder : SizingPosition → ℕ → SizingHealth → List ℕ
unfolding min_sizes distinct
close_size_ladder position price health =
    let candidates = min_sizes position price health ++ position.size / 2 ∷ position.size ∷ [] in
    if position.size == 0
    then []
    else sort leb (distinct (keep (λ c. ltb 0 c && leb c position.size) candidates))

-- Sizes that rise from beyond `low` on, none beyond `size`.
abbrev pub Climbs : ℕ → ℕ → List ℕ → Type 0
Climbs low size [] = Unit {0}
Climbs low size (c ∷ cs) = (low < c) × (c ≤ size) × Climbs c size cs

abbrev pub last : List ℕ → Option ℕ
last [] = none
last (x ∷ []) = some x
last (x ∷ y ∷ ys) = last (y ∷ ys)

-- What the ladder of some candidates is: it climbs to the whole size and has each of them.
abbrev pub IsLadder : ℕ → List ℕ → List ℕ → Type 0
IsLadder size mins ladder =
    Climbs 0 size ladder × (last ladder ≡ some size) × All (λ m. In m ladder) mins

IsLadder-without_min :
    (half size : ℕ)
    → half < size
    → IsLadder size [] (sort leb (distinct (keep (λ c. ltb 0 c && leb c size) (half ∷ size ∷ []))))
unfolding distinct keep sort
IsLadder-without_min half size h = ground arith

IsLadder-with_min :
    (m half size : ℕ)
    → 0 < m
    → m < size
    → half < size
    → IsLadder size
        (m ∷ [])
        (sort leb (distinct (keep (λ c. ltb 0 c && leb c size) (m ∷ half ∷ size ∷ []))))
unfolding distinct keep sort
IsLadder-with_min m half size h k l = ground arith

-- For a position of positive size, the sizes to try rise strictly, each positive, to the whole
-- position, and what `min_sizes` gives is among them. `Liquidation.Needed` says what that is.
pub close_size_ladder-IsLadder :
    (p : SizingPosition) (price : ℕ) (h : SizingHealth)
    → 0 < p.size
    → IsLadder p.size (min_sizes p price h) (close_size_ladder p price h)
unfolding close_size_ladder min_sizes
close_size_ladder-IsLadder p price h some_size =
    let shortfall = pos_part (h.maintenance_margin_required -ℤ h.equity) in
    let notional = p.size * price / price_precision in
    let m = p.size * shortfall / notional * safety_num / safety_den in
    let half : p.size / 2 < p.size = omega arith in
    let nonzero : (p.size == 0) ≡ false = ground arith in
    elim (Bool-cases (ltb 0 shortfall && ltb 0 notional && ltb 0 m && ltb m p.size)) [
      | inl e ↦
          rw (e, nonzero)
            (IsLadder-with_min m (p.size / 2) p.size (ground (arith, e)) (ground (arith, e)) half)
      | inr e ↦ rw (e, nonzero) (IsLadder-without_min (p.size / 2) p.size half)
    ]
