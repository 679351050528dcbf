-- ===== src/Oracle/Aggregate/Ranked.antt =====
-- How many prices lie below and above the one at an index of a sorted list.
use kryon.Common.{
  ℕ, zero, suc, ◌+◌, ◌*◌, ◌%◌, ◌/◌, ◌-◌, ◌≤◌, ◌<◌, ◌≡◌, refl, inl, inr, List, [], ◌∷◌, true, length,
  keep, length-keep-le, ltb, leb, arith, In, All, All-at, Bool-cases, ◌==◌,
}
use kryon.Matcher.Sort.{IsSorted}
use kryon.Oracle.{Doubles}
use kryon.Oracle.Aggregate.{get_or, median}

abbrev pub below : ℕ → List ℕ → ℕ
below m prices = length (keep (λ p. ltb p m) prices)

abbrev pub above : ℕ → List ℕ → ℕ
above m prices = length (keep (λ p. ltb m p) prices)

pub get_or-In : (xs : List ℕ) (k : ℕ) → k < length xs → In (get_or xs k 0) xs
unfolding get_or
get_or-In [] k h = omega (arith, h)
get_or-In (x ∷ xs) zero h = inl refl
get_or-In (x ∷ xs) (suc k) h = inr (get_or-In xs k (omega (arith, h)))

below-least : (x : ℕ) (xs : List ℕ) → All (λ y. leb x y ≡ true) xs → below x xs ≡ 0
unfolding keep
below-least x [] h = refl
below-least x (y ∷ ys) h = ground (arith, h.0, below-least x ys h.1)

pub below-get_or-le :
    (xs : List ℕ) (k : ℕ) → IsSorted leb xs → k < length xs → below (get_or xs k 0) xs ≤ k
unfolding get_or keep
below-get_or-le [] k s h = omega (arith, h)
below-get_or-le (x ∷ xs) zero s h = ground (arith, below-least x xs s.0)
below-get_or-le (x ∷ xs) (suc k) s h = ground (arith, below-get_or-le xs k s.1 (omega (arith, h)))

pub above-get_or-le :
    (xs : List ℕ) (k : ℕ)
    → IsSorted leb xs
    → k < length xs
    → above (get_or xs k 0) xs + k < length xs
unfolding get_or keep
above-get_or-le [] k s h = omega (arith, h)
above-get_or-le (x ∷ xs) zero s h = ground (arith, length-keep-le (λ p. ltb x p) xs)
above-get_or-le (x ∷ xs) (suc k) s h =
    let first = All-at _ (get_or xs k 0) xs s.0 (get_or-In xs k (omega (arith, h))) in
    ground (arith, first, above-get_or-le xs k s.1 (omega (arith, h)))

-- A price of which less than half of all lie below, and less than half above
pub record IsMiddle (prices : List ℕ) (m : ℕ) : Type 0 where
  pub member : In m prices
  pub few_below : 2 * below m prices < length prices
  pub few_above : 2 * above m prices < length prices

-- The two prices next to the middle of an even number
pub record AreMiddle (prices : List ℕ) (x y : ℕ) : Type 0 where
  pub lower : In x prices
  pub upper : In y prices
  pub lower_below : 2 * below x prices < length prices
  pub lower_above : 2 * above x prices ≤ length prices
  pub upper_below : 2 * below y prices ≤ length prices
  pub upper_above : 2 * above y prices < length prices

pub data IsMedian (f : Doubles) (prices : List ℕ) : ℕ → Type 0 where
  odd : {m : ℕ} → length prices % 2 ≡ 1 → IsMiddle prices m → IsMedian f prices m
  even :
      {x y : ℕ}
      → length prices % 2 ≡ 0
      → AreMiddle prices x y
      → IsMedian f prices (f.over (f.plus x y) (f.double 2))

pub median-IsMedian :
    (f : Doubles) (xs : List ℕ) → IsSorted leb xs → 0 < length xs → IsMedian f xs (median f xs)
unfolding median
median-IsMedian f xs s h = elim (Bool-cases (length xs % 2 == 1)) [
  | inl e ↦
      let parity : length xs % 2 ≡ 1 = ground (arith, e) in
      let k = (length xs - 1) / 2 in
      let small : k < length xs = omega (arith, h) in
      let low = below-get_or-le xs k s small in
      let high = above-get_or-le xs k s small in
      rw e (
        odd parity (record {
          member = get_or-In xs k small;
          few_below = omega (arith, low, parity, h);
          few_above = omega (arith, high, parity, h);
        }))
  | inr e ↦
      let parity : length xs % 2 ≡ 0 = ground (arith, e) in
      let k = length xs / 2 in
      let low = below-get_or-le xs (k - 1) s (omega (arith, h)) in
      let low_above = above-get_or-le xs (k - 1) s (omega (arith, h)) in
      let high = below-get_or-le xs k s (omega (arith, h)) in
      let high_above = above-get_or-le xs k s (omega (arith, h)) in
      rw e (
        even parity (record {
          lower = get_or-In xs (k - 1) (omega (arith, h));
          upper = get_or-In xs k (omega (arith, h));
          lower_below = omega (arith, low, parity, h);
          lower_above = omega (arith, low_above, parity, h);
          upper_below = omega (arith, high, parity, h);
          upper_above = omega (arith, high_above, parity, h);
        }))
]
