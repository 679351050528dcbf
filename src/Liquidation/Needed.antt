-- ===== src/Liquidation/Needed.antt =====
-- Which sizes closeSizeLadder of client/lib/market/liquidation-sizing.ts has.
use kryon.Common.{
  ℕ, ◌*◌, ◌/◌, ◌^◌, ◌≤◌, ◌<◌, ◌≡◌, ◌↔◌, refl, sym, ap, subst, ◌∙◌, ◌⊎◌, inl, inr, List, [], ◌∷◌,
  ◌++◌, Bool, true, false, ◌&&◌, ltb, leb, ◌==◌, In, In-keep, keep-In, In-append_left,
  In-append_right, Bool-cases, arith,
}
use kryon.Common.Int.{ℤ, pos, negsuc, pos_part, ◌+ℤ◌, ◌-ℤ◌}
use kryon.Matcher.Sort.{sort-In, In-sort}
use kryon.Liquidation.{
  SizingPosition, SizingHealth, distinct, min_sizes, close_size_ladder, close_size_ladder-IsLadder,
  Climbs,
}

-- The size whose margin makes up for what the account lacks of its maintenance margin, with a quarter more, where that is
-- less than the whole position: 125 / 100 of `size * shortfall / notional`.
abbrev pub IsNeeded : SizingPosition → ℕ → SizingHealth → ℕ → Type 0
IsNeeded p price h x =
    (shortfall notional : ℕ) × (0 < shortfall)
    × (h.maintenance_margin_required ≡ h.equity +ℤ pos shortfall)
    × (notional ≡ p.size * price / 10 ^ 18)
    × (0 < notional)
    × (x ≡ p.size * shortfall / notional * 125 / 100)
    × (x < p.size)

distinct-In : (x : ℕ) (xs : List ℕ) → In x (distinct xs) → In x xs
unfolding distinct
distinct-In x [] h = h
distinct-In x (y ∷ ys) (inl e) = inl e
distinct-In x (y ∷ ys) (inr m) = inr (distinct-In x ys (In-keep _ x (distinct ys) m).0)

In-distinct : (x : ℕ) (xs : List ℕ) → In x xs → In x (distinct xs)
unfolding distinct
In-distinct x [] h = h
In-distinct x (y ∷ ys) (inl e) = inl e
In-distinct x (y ∷ ys) (inr m) = elim (Bool-cases (x == y)) [
  | inl same ↦ inl (ground (arith, same))
  | inr other ↦ inr (keep-In _ x (distinct ys) (In-distinct x ys m) (rw other refl))
]

In-append_cases : (x : ℕ) (xs ys : List ℕ) → In x (xs ++ ys) → In x xs ⊎ In x ys
In-append_cases x [] ys h = inr h
In-append_cases x (z ∷ zs) ys (inl e) = inl (inl e)
In-append_cases x (z ∷ zs) ys (inr m) = elim (In-append_cases x zs ys m) [
  | inl k ↦ inl (inr k)
  | inr k ↦ inr k
]

difference-sum : (e m : ℤ) → 0 < pos_part (m -ℤ e) → m ≡ e +ℤ pos (pos_part (m -ℤ e))
unfolding ◌+ℤ◌ ◌-ℤ◌
difference-sum (pos e) (pos m) h = ground (arith, h)
difference-sum (pos e) (negsuc m) h = ground (arith, h)
difference-sum (negsuc e) (pos m) h = ground (arith, h)
difference-sum (negsuc e) (negsuc m) h = ground (arith, h)

sum-difference : (e : ℤ) (n : ℕ) → pos_part ((e +ℤ pos n) -ℤ e) ≡ n
unfolding ◌+ℤ◌ ◌-ℤ◌
sum-difference (pos e) n = ground arith
sum-difference (negsuc e) n = ground arith

module _ (p : SizingPosition) (price : ℕ) (h : SizingHealth) where
  abbrev shortfall : ℕ
  shortfall = pos_part (h.maintenance_margin_required -ℤ h.equity)

  abbrev own_notional : ℕ
  own_notional = p.size * price / 10 ^ 18

  abbrev min_size : ℕ
  min_size = p.size * shortfall / own_notional * 125 / 100

  abbrev has_min : Bool
  has_min = ltb 0 shortfall && ltb 0 own_notional && ltb 0 min_size && ltb min_size p.size

  IsNeeded-has_min : (x : ℕ) → 0 < x → IsNeeded p price h x → (x ≡ min_size) × (has_min ≡ true)
  IsNeeded-has_min x positive (n, v, short, sum, same_notional, some_notional, size, partial) =
      let same : shortfall ≡ n =
        ap (λ m. pos_part (m -ℤ h.equity)) sum ∙ sum-difference h.equity n in
      let here : x ≡ min_size =
        size
        ∙ ap (λ k. p.size * k / v * 125 / 100) (sym same)
        ∙ ap (λ k. p.size * shortfall / k * 125 / 100) same_notional in
      let short' : 0 < shortfall = subst (λ k. 0 < k) (sym same) short in
      let notional' : 0 < own_notional = subst (λ k. 0 < k) same_notional some_notional in
      let min' : 0 < min_size = subst (λ k. 0 < k) here positive in
      let part' : min_size < p.size = subst (λ k. k < p.size) here partial in
      (here, all_true shortfall own_notional min_size p.size short' notional' min' part')
    where
      all_true :
          (a b c d : ℕ)
          → 0 < a
          → 0 < b
          → 0 < c
          → c < d
          → (ltb 0 a && ltb 0 b && ltb 0 c && ltb c d) ≡ true
      all_true a b c d i j k l = ground (arith, i, j, k, l)

  has_min-IsNeeded : has_min ≡ true → (0 < min_size) × IsNeeded p price h min_size
  has_min-IsNeeded e =
      let (i, j, k, l) = all_less shortfall own_notional min_size p.size e in
      (
        k,
        (
          shortfall,
          own_notional,
          i,
          difference-sum h.equity h.maintenance_margin_required i,
          refl,
          j,
          refl,
          l,
        ),
      )
    where
      all_less :
          (a b c d : ℕ)
          → (ltb 0 a && ltb 0 b && ltb 0 c && ltb c d) ≡ true
          → (0 < a) × (0 < b) × (0 < c) × (c < d)
      all_less a b c d e =
          (ground (arith, e), ground (arith, e), ground (arith, e), ground (arith, e))

  min_sizes-In : (x : ℕ) → In x (min_sizes p price h) → (0 < x) × IsNeeded p price h x
  unfolding min_sizes
  min_sizes-In x i = elim (Bool-cases has_min) [
    | inl e ↦ elim (rw e at i) [
      | inl q ↦ subst (λ n. (0 < n) × IsNeeded p price h n) (sym q) (has_min-IsNeeded e)
      | inr none_left ↦ absurd none_left
    ]
    | inr e ↦ absurd (rw e at i)
  ]

  In-min_sizes : (x : ℕ) → 0 < x → IsNeeded p price h x → In x (min_sizes p price h)
  unfolding min_sizes
  In-min_sizes x positive needed =
      let (here, e) = IsNeeded-has_min x positive needed in rw e (inl here)

  ladder-In :
      (x : ℕ)
      → 0 < p.size
      → In x (close_size_ladder p price h)
      → (0 < x) × (IsNeeded p price h x ⊎ (x ≡ p.size / 2) ⊎ (x ≡ p.size))
  unfolding close_size_ladder
  ladder-In x some_size i =
      let nonzero : (p.size == 0) ≡ false = ground (arith, some_size) in
      let (m, fits) = In-keep _ x _ (distinct-In x _ (sort-In leb x _ (rw nonzero at i))) in
      (
        ground (arith, fits),
        elim (In-append_cases x (min_sizes p price h) (p.size / 2 ∷ p.size ∷ []) m) [
          | inl k ↦ inl (min_sizes-In x k).1
          | inr (inl e) ↦ inr (inl e)
          | inr (inr (inl e)) ↦ inr (inr e)
          | inr (inr (inr none_left)) ↦ absurd none_left
        ],
      )

  In-ladder :
      (x : ℕ)
      → 0 < p.size
      → 0 < x
      → IsNeeded p price h x ⊎ (x ≡ p.size / 2) ⊎ (x ≡ p.size)
      → In x (close_size_ladder p price h)
  unfolding close_size_ladder
  In-ladder x some_size positive choice =
      let nonzero : (p.size == 0) ≡ false = ground (arith, some_size) in
      let fits : (ltb 0 x && leb x p.size) ≡ true = bounded choice in
      rw nonzero (In-sort leb x _ (In-distinct x _ (keep-In _ x _ (among choice) fits)))
    where
      bounded :
          IsNeeded p price h x ⊎ (x ≡ p.size / 2) ⊎ (x ≡ p.size) → (ltb 0 x && leb x p.size) ≡ true
      bounded (inl (n, v, short, sum, same_notional, some_notional, size, partial)) =
          ground (arith, positive, partial)
      bounded (inr (inl e)) = let le : x ≤ p.size = omega (arith, e) in ground (arith, positive, le)
      bounded (inr (inr e)) = ground (arith, positive, e)

      among :
          IsNeeded p price h x ⊎ (x ≡ p.size / 2) ⊎ (x ≡ p.size)
          → In x (min_sizes p price h ++ p.size / 2 ∷ p.size ∷ [])
      among (inl needed) = In-append_left x (min_sizes p price h) _ (In-min_sizes x positive needed)
      among (inr (inl e)) = In-append_right x (min_sizes p price h) _ (inl e)
      among (inr (inr e)) = In-append_right x (min_sizes p price h) _ (inr (inl e))

-- For a position of positive size, the sizes to try rise strictly, none is beyond the whole position, and they are
-- exactly the positive ones of these: the whole position, half of it rounded down, and, where the maintenance margin
-- exceeds the equity by a shortfall and the notional at the price is positive, 125 hundredths of size * shortfall /
-- notional, each step rounded down, if that is less than the whole position.
pub close_size_ladder-tries :
    (p : SizingPosition) (price : ℕ) (h : SizingHealth)
    → 0 < p.size
    → Climbs 0 p.size (close_size_ladder p price h)
      × ((x : ℕ)
          → In x (close_size_ladder p price h)
            ↔ ((0 < x) × (IsNeeded p price h x ⊎ (x ≡ p.size / 2) ⊎ (x ≡ p.size))))
close_size_ladder-tries p price h some_size = (
  (close_size_ladder-IsLadder p price h some_size).0,
  λ x. (
    ladder-In p price h x some_size,
    λ (positive, choice). In-ladder p price h x some_size positive choice,
  ),
)
