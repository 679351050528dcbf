-- ===== src/Matcher/Sort.antt =====
-- `Array.prototype.sort` on orders: a stable insertion sort, with the comparators of `matchAll`.
use kryon.Common.{
  suc, length, keep, ap, ◌≤◌, ◌≡◌, refl, ◌∙◌, List, [], ◌∷◌, Bool, true, false, ◌&&◌, ◌||◌, arith,
  ltb, leb, ◌==◌, if◌then◌else◌, In, All, inl, inr, ◌⊎◌, Bool-cases,
}
use kryon.Matcher.Order.{RestingOrder}

-- `Number(b.limitPrice - a.limitPrice) || a.createdAt - b.createdAt` is at most 0.
unfoldable pub best_bid_first : RestingOrder → RestingOrder → Bool
best_bid_first a b =
    ltb b.limit_price a.limit_price
    || a.limit_price == b.limit_price && leb a.created_at b.created_at

-- `Number(a.limitPrice - b.limitPrice) || a.createdAt - b.createdAt` is at most 0.
unfoldable pub best_ask_first : RestingOrder → RestingOrder → Bool
best_ask_first a b =
    ltb a.limit_price b.limit_price
    || a.limit_price == b.limit_price && leb a.created_at b.created_at

-- Each element is related to all that follow it.
abbrev pub Pairwise : {A : Type 0} → (A → A → Type 0) → List A → Type 0
Pairwise R [] = Unit
Pairwise R (x ∷ xs) = All (R x) xs × Pairwise R xs

module _ {A : Type 0} (before : A → A → Bool) where
  insert : A → List A → List A
  insert x [] = x ∷ []
  insert x (y ∷ ys) = if before x y then x ∷ y ∷ ys else y ∷ insert x ys

  unfoldable pub sort : List A → List A
  unfolding insert
  sort [] = []
  sort (x ∷ xs) = insert x (sort xs)

  insert-In : (z x : A) (ys : List A) → In z (insert x ys) → (z ≡ x) ⊎ In z ys
  unfolding insert
  insert-In z x [] h = h
  insert-In z x (y ∷ ys) h = elim (Bool-cases (before x y)) [
    | inl t ↦ rw t at h
    | inr f ↦ elim (rw f at h) [
      | inl e ↦ inr (inl e)
      | inr m ↦ elim (insert-In z x ys m) [ inl e ↦ inl e | inr k ↦ inr (inr k) ]
    ]
  ]

  In-insert : (z x : A) (ys : List A) → (z ≡ x) ⊎ In z ys → In z (insert x ys)
  unfolding insert
  In-insert z x [] h = h
  In-insert z x (y ∷ ys) h = elim (Bool-cases (before x y)) [
    | inl t ↦ rw t h
    | inr f ↦ rw f (elim h [
      | inl e ↦ inr (In-insert z x ys (inl e))
      | inr (inl e) ↦ inl e
      | inr (inr m) ↦ inr (In-insert z x ys (inr m))
    ])
  ]

  pub sort-In : (z : A) (xs : List A) → In z (sort xs) → In z xs
  unfolding sort
  sort-In z [] h = h
  sort-In z (x ∷ xs) h = elim (insert-In z x (sort xs) h) [
    | inl e ↦ inl e
    | inr m ↦ inr (sort-In z xs m)
  ]

  pub In-sort : (z : A) (xs : List A) → In z xs → In z (sort xs)
  unfolding sort
  In-sort z [] h = h
  In-sort z (x ∷ xs) (inl e) = In-insert z x (sort xs) (inl e)
  In-sort z (x ∷ xs) (inr m) = In-insert z x (sort xs) (inr (In-sort z xs m))

  All-insert : (P : A → Type 0) (x : A) (ys : List A) → P x → All P ys → All P (insert x ys)
  unfolding insert
  All-insert P x [] h k = (h, tt)
  All-insert P x (y ∷ ys) h k = elim (Bool-cases (before x y)) [
    | inl t ↦ rw t (h, k)
    | inr f ↦ rw f (k.0, All-insert P x ys h k.1)
  ]

  insert-Pairwise :
      (R : A → A → Type 0)
      → ((a b : A) → R a b → R b a)
      → (x : A) (ys : List A) → All (R x) ys
      → Pairwise R ys
      → Pairwise R (insert x ys)
  unfolding insert
  insert-Pairwise R s x [] h k = (tt, tt)
  insert-Pairwise R s x (y ∷ ys) h k = elim (Bool-cases (before x y)) [
    | inl t ↦ rw t (h, k)
    | inr f ↦ rw f (All-insert (R y) x ys (s x y h.0) k.0, insert-Pairwise R s x ys h.1 k.1)
  ]

  All-sort : (P : A → Type 0) (xs : List A) → All P xs → All P (sort xs)
  unfolding sort
  All-sort P [] h = tt
  All-sort P (x ∷ xs) h = All-insert P x (sort xs) h.0 (All-sort P xs h.1)

  -- A symmetric relation of the elements does not mind the order.
  pub sort-Pairwise :
      (R : A → A → Type 0)
      → ((a b : A) → R a b → R b a)
      → (xs : List A) → Pairwise R xs
      → Pairwise R (sort xs)
  unfolding sort
  sort-Pairwise R s [] h = tt
  sort-Pairwise R s (x ∷ xs) h =
      insert-Pairwise R s x (sort xs) (All-sort (R x) xs h.0) (sort-Pairwise R s xs h.1)

  length-insert : (x : A) (ys : List A) → length (insert x ys) ≡ suc (length ys)
  unfolding insert
  length-insert x [] = refl
  length-insert x (y ∷ ys) = elim (Bool-cases (before x y)) [
    | inl t ↦ rw t refl
    | inr f ↦ rw f (ap suc (length-insert x ys))
  ]

  pub length-sort : (xs : List A) → length (sort xs) ≡ length xs
  unfolding sort
  length-sort [] = refl
  length-sort (x ∷ xs) = length-insert x (sort xs) ∙ ap suc (length-sort xs)

  length-keep-insert :
      (p : A → Bool) (x : A) (ys : List A)
      → length (keep p (insert x ys)) ≡ length (keep p (x ∷ ys))
  unfolding insert keep
  length-keep-insert p x [] = refl
  length-keep-insert p x (y ∷ ys) = elim (Bool-cases (before x y)) [
    | inl t ↦ rw t refl
    | inr f ↦ ground (arith, f, length-keep-insert p x ys)
  ]

  -- Sorting keeps how many elements satisfy a test.
  pub length-keep-sort :
      (p : A → Bool) (xs : List A) → length (keep p (sort xs)) ≡ length (keep p xs)
  unfolding sort keep
  length-keep-sort p [] = refl
  length-keep-sort p (x ∷ xs) =
      length-keep-insert p x (sort xs) ∙ ground (arith, length-keep-sort p xs)

  -- Every element stands before, or level with, all that follow it.
  abbrev pub IsSorted : List A → Type 0
  IsSorted [] = Unit
  IsSorted (x ∷ xs) = All (λ y. before x y ≡ true) xs × IsSorted xs

  module _ (total : (a b : A) → before a b ≡ false → before b a ≡ true)
      (trans : (a b c : A) → before a b ≡ true → before b c ≡ true → before a c ≡ true) where
    All-weaken :
        (x y : A) (ys : List A)
        → before x y ≡ true
        → All (λ z. before y z ≡ true) ys
        → All (λ z. before x z ≡ true) ys
    All-weaken x y [] e h = tt
    All-weaken x y (z ∷ zs) e h = (trans x y z e h.0, All-weaken x y zs e h.1)

    insert-IsSorted : (x : A) (ys : List A) → IsSorted ys → IsSorted (insert x ys)
    unfolding insert
    insert-IsSorted x [] h = (tt, tt)
    insert-IsSorted x (y ∷ ys) h = elim (Bool-cases (before x y)) [
      | inl t ↦ rw t ((t, All-weaken x y ys t h.0), h)
      | inr f ↦ rw f (All-insert _ x ys (total x y f) h.0, insert-IsSorted x ys h.1)
    ]

    pub sort-IsSorted : (xs : List A) → IsSorted (sort xs)
    unfolding sort
    sort-IsSorted [] = tt
    sort-IsSorted (x ∷ xs) = insert-IsSorted x (sort xs) (sort-IsSorted xs)

pub best_ask_first_total :
    (a b : RestingOrder) → best_ask_first a b ≡ false → best_ask_first b a ≡ true
unfolding best_ask_first
best_ask_first_total a b h = ground arith

pub best_ask_first_trans :
    (a b c : RestingOrder)
    → best_ask_first a b ≡ true
    → best_ask_first b c ≡ true
    → best_ask_first a c ≡ true
unfolding best_ask_first
best_ask_first_trans a b c h k = ground arith

pub best_bid_first_total :
    (a b : RestingOrder) → best_bid_first a b ≡ false → best_bid_first b a ≡ true
unfolding best_bid_first
best_bid_first_total a b h = ground arith

pub best_bid_first_trans :
    (a b c : RestingOrder)
    → best_bid_first a b ≡ true
    → best_bid_first b c ≡ true
    → best_bid_first a c ≡ true
unfolding best_bid_first
best_bid_first_trans a b c h k = ground arith

pub best_ask_first-le :
    (a b : RestingOrder) → best_ask_first a b ≡ true → a.limit_price ≤ b.limit_price
unfolding best_ask_first
best_ask_first-le a b h = ground arith
