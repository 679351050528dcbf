-- ===== src/Stream/Book/Levels.antt =====
-- The levels that the rows of a side of the public book add up to.
use kryon.Common.{
  ℕ, ◌≡◌, refl, sym, ap, ◌∙◌, ◌⊎◌, inl, inr, String, Bool, true, false, not, List, [], ◌∷◌, map,
  str_eq, if◌then◌else◌, arith, eq_iff, Bool-cases, In,
}
use kryon.Database.{OrderRow}
use kryon.Stream.Book.{BookNumbers, add_level, add_rows}

module _ {A B : Type 0} where
  pub In-map : (f : A → B) (y : B) (xs : List A) → In y (map f xs) → (x : A) × In x xs × (y ≡ f x)
  In-map f y [] m = absurd m
  In-map f y (x ∷ xs) (inl e) = (x, inl refl, e)
  In-map f y (x ∷ xs) (inr m) = let (z, n, e) = In-map f y xs m in (z, inr n, e)

  pub map-In : (f : A → B) (x : A) (xs : List A) → In x xs → In (f x) (map f xs)
  map-In f x [] m = absurd m
  map-In f x (y ∷ ys) (inl e) = inl (ap f e)
  map-In f x (y ∷ ys) (inr m) = inr (map-In f x ys m)

-- The level of a price is there.
unfoldable pub HasLevel : String → List (String × ℕ) → Type 0
HasLevel p levels = (size : ℕ) × In (p, size) levels

module _ (f : BookNumbers) where
  add_level-HasLevel :
      (p price : String) (size : ℕ) (levels : List (String × ℕ))
      → HasLevel p (add_level f price size levels)
      → (price ≡ p) ⊎ HasLevel p levels
  unfolding add_level HasLevel
  add_level-HasLevel p price size [] (s, inl e) = inl (sym (ap (λ x. x.0) e))
  add_level-HasLevel p price size [] (s, inr m) = absurd m
  add_level-HasLevel p price size ((q, t) ∷ rest) (s, m) = elim (Bool-cases (str_eq q price)) [
    | inl same ↦ by_hit same (rw same at m)
    | inr other ↦ by_miss (λ k. add_level-HasLevel p price size rest (s, k)) (rw other at m)
  ]
    where
      by_hit :
          str_eq q price ≡ true
          → In (p, s) ((q, f.plus t size) ∷ rest)
          → (price ≡ p) ⊎ ((x : ℕ) × In (p, x) ((q, t) ∷ rest))
      by_hit same (inl e) = let n : p ≡ q = ap (λ x. x.0) e in inl (grind (arith, eq_iff, same, n))
      by_hit same (inr k) = inr (s, inr k)

      by_miss :
          (In (p, s) (add_level f price size rest) → (price ≡ p) ⊎ ((x : ℕ) × In (p, x) rest))
          → In (p, s) ((q, t) ∷ add_level f price size rest)
          → (price ≡ p) ⊎ ((x : ℕ) × In (p, x) ((q, t) ∷ rest))
      by_miss ih (inl e) = inr (t, inl (let n : p ≡ q = ap (λ x. x.0) e in rw n refl))
      by_miss ih (inr k) = elim (ih k) [ inl e ↦ inl e | inr (x, n) ↦ inr (x, inr n) ]

  HasLevel-add_level :
      (p price : String) (size : ℕ) (levels : List (String × ℕ))
      → (price ≡ p) ⊎ HasLevel p levels
      → HasLevel p (add_level f price size levels)
  unfolding add_level HasLevel
  HasLevel-add_level p price size [] (inl e) = (f.plus 0 size, inl (rw e refl))
  HasLevel-add_level p price size [] (inr (s, m)) = absurd m
  HasLevel-add_level p price size ((q, t) ∷ rest) h = elim (Bool-cases (str_eq q price)) [
    | inl same ↦ rw same (by_hit same h)
    | inr other ↦ rw other (by_miss (λ k. HasLevel-add_level p price size rest k) h)
  ]
    where
      by_hit :
          str_eq q price ≡ true
          → (price ≡ p) ⊎ ((x : ℕ) × In (p, x) ((q, t) ∷ rest))
          → (x : ℕ) × In (p, x) ((q, f.plus t size) ∷ rest)
      by_hit same (inl e) =
          let n : p ≡ q = grind (arith, eq_iff, same, e) in (f.plus t size, inl (rw n refl))
      by_hit same (inr (x, inl e)) =
          let n : p ≡ q = ap (λ y. y.0) e in (f.plus t size, inl (rw n refl))
      by_hit same (inr (x, inr k)) = (x, inr k)

      by_miss :
          ((price ≡ p) ⊎ ((x : ℕ) × In (p, x) rest)
            → (x : ℕ) × In (p, x) (add_level f price size rest))
          → (price ≡ p) ⊎ ((x : ℕ) × In (p, x) ((q, t) ∷ rest))
          → (x : ℕ) × In (p, x) ((q, t) ∷ add_level f price size rest)
      by_miss ih (inl e) = let (x, k) = ih (inl e) in (x, inr k)
      by_miss ih (inr (x, inl e)) = (x, inl e)
      by_miss ih (inr (x, inr k)) = let (y, n) = ih (inr (x, k)) in (y, inr n)

  -- A row of the side and the price
  unfoldable pub OnSide : Bool → String → OrderRow → Type 0
  OnSide is_long p r = (r.is_long ≡ is_long) × (f.price_human r.limit_price ≡ p)

  same_side : (a b : Bool) → (if a then b else not b) ≡ true → a ≡ b
  same_side true true h = refl
  same_side true false h = sym h
  same_side false true h = h
  same_side false false h = refl

  side_same : (a : Bool) → (if a then a else not a) ≡ true
  side_same true = refl
  side_same false = refl

  pub add_rows-HasLevel :
      (is_long : Bool) (p : String) (rows : List OrderRow) (levels : List (String × ℕ))
      → HasLevel p (add_rows f is_long rows levels)
      → HasLevel p levels ⊎ ((r : OrderRow) × In r rows × OnSide is_long p r)
  unfolding add_rows OnSide
  add_rows-HasLevel is_long p [] levels h = inl h
  add_rows-HasLevel is_long p (r ∷ rest) levels h =
      elim (Bool-cases (if r.is_long then is_long else not is_long)) [
        | inl e ↦ elim (add_rows-HasLevel is_long p rest _ (rw e at h)) [
          | inl k ↦
              elim (add_level-HasLevel p (f.price_human r.limit_price)
                (f.remaining r.size r.filled_size) levels k) [
                  | inl q ↦ inr (r, inl refl, (same_side r.is_long is_long e, q))
                  | inr l ↦ inl l
                ]
          | inr (x, m, on) ↦ inr (x, inr m, on)
        ]
        | inr e ↦ elim (add_rows-HasLevel is_long p rest levels (rw e at h)) [
          | inl k ↦ inl k
          | inr (x, m, on) ↦ inr (x, inr m, on)
        ]
      ]

  pub HasLevel-add_rows :
      (is_long : Bool) (p : String) (rows : List OrderRow) (levels : List (String × ℕ))
      → HasLevel p levels ⊎ ((r : OrderRow) × In r rows × OnSide is_long p r)
      → HasLevel p (add_rows f is_long rows levels)
  unfolding add_rows OnSide
  HasLevel-add_rows is_long p [] levels (inl h) = h
  HasLevel-add_rows is_long p [] levels (inr (x, m, on)) = absurd m
  HasLevel-add_rows is_long p (r ∷ rest) levels h =
      elim (Bool-cases (if r.is_long then is_long else not is_long)) [
        | inl e ↦ rw e (HasLevel-add_rows is_long p rest _ (by_hit h))
        | inr e ↦ rw e (HasLevel-add_rows is_long p rest levels (by_miss e h))
      ]
    where
      by_hit :
          HasLevel p levels ⊎ ((x : OrderRow) × In x (r ∷ rest) × OnSide is_long p x)
          → HasLevel p
              (add_level f (f.price_human r.limit_price) (f.remaining r.size r.filled_size) levels)
            ⊎ ((x : OrderRow) × In x rest × OnSide is_long p x)
      by_hit (inl k) = inl (HasLevel-add_level p _ _ levels (inr k))
      by_hit (inr (x, inl q, on)) = inl (
          HasLevel-add_level p _ _ levels
            (inl (ap (λ y. f.price_human y.limit_price) (sym q) ∙ on.1)))
      by_hit (inr (x, inr m, on)) = inr (x, m, on)

      by_miss :
          (if r.is_long then is_long else not is_long) ≡ false
          → HasLevel p levels ⊎ ((x : OrderRow) × In x (r ∷ rest) × OnSide is_long p x)
          → HasLevel p levels ⊎ ((x : OrderRow) × In x rest × OnSide is_long p x)
      by_miss e (inl k) = inl k
      by_miss e (inr (x, inl q, on)) =
          let side : r.is_long ≡ is_long = ap (λ y. y.is_long) (sym q) ∙ on.0 in
          let hit = side_same r.is_long in absurd (ground (arith, e, side, hit))
      by_miss e (inr (x, inr m, on)) = inr (x, m, on)
