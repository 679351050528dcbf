-- ===== src/Common/Member.antt =====
-- Membership and universal statements as recursive predicates, which the tactics read.
use mathlib.Core.Path.{◌≡◌, refl, sym, subst}
use mathlib.Core.Logic.{◌⊎◌, inl, inr}
use mathlib.Core.Bool.{Bool, true, false}
use mathlib.Core.List.{List, [], ◌∷◌, ◌++◌}
use kryon.Common.Tests.{Bool-cases}
use kryon.Common.Lists.{keep, any, update_where}

abbrev pub In : {A : Type 0} → A → List A → Type 0
In x [] = ⊥
In x (y ∷ ys) = (x ≡ y) ⊎ In x ys

abbrev pub All : {A : Type 0} → (A → Type 0) → List A → Type 0
All P [] = Unit
All P (x ∷ xs) = P x × All P xs

module _ {A : Type 0} where
  pub In-append_left : (x : A) (xs ys : List A) → In x xs → In x (xs ++ ys)
  In-append_left x [] ys h = absurd h
  In-append_left x (z ∷ zs) ys (inl e) = inl e
  In-append_left x (z ∷ zs) ys (inr h) = inr (In-append_left x zs ys h)

  pub In-append_right : (x : A) (xs ys : List A) → In x ys → In x (xs ++ ys)
  In-append_right x [] ys h = h
  In-append_right x (z ∷ zs) ys h = inr (In-append_right x zs ys h)

  pub All-append : (P : A → Type 0) (xs ys : List A) → All P xs → All P ys → All P (xs ++ ys)
  All-append P [] ys h k = k
  All-append P (x ∷ xs) ys h k = (h.0, All-append P xs ys h.1 k)

  pub All-at : (P : A → Type 0) (x : A) (xs : List A) → All P xs → In x xs → P x
  All-at P x [] h m = absurd m
  All-at P x (y ∷ ys) h (inl e) = subst P (sym e) h.0
  All-at P x (y ∷ ys) h (inr m) = All-at P x ys h.1 m

  pub All-intro : (P : A → Type 0) (xs : List A) → ((x : A) → In x xs → P x) → All P xs
  All-intro P [] f = tt
  All-intro P (x ∷ xs) f = (f x (inl refl), All-intro P xs (λ y h. f y (inr h)))

  pub In-keep : (p : A → Bool) (x : A) (xs : List A) → In x (keep p xs) → In x xs × (p x ≡ true)
  unfolding keep
  In-keep p x [] h = absurd h
  In-keep p x (y ∷ ys) h = elim (Bool-cases (p y)) [
    | inl e ↦ In-keep_hit p x y ys e (In-keep p x ys) (rw e at h)
    | inr e ↦ let (m, t) = In-keep p x ys (rw e at h) in (inr m, t)
  ]
    where
      In-keep_hit :
          (p : A → Bool) (x y : A) (ys : List A)
          → p y ≡ true
          → (In x (keep p ys) → In x ys × (p x ≡ true))
          → In x (y ∷ keep p ys)
          → In x (y ∷ ys) × (p x ≡ true)
      In-keep_hit p x y ys e ih (inl q) = (inl q, rw q e)
      In-keep_hit p x y ys e ih (inr m) = (inr (ih m).0, (ih m).1)

  pub keep-In : (p : A → Bool) (x : A) (xs : List A) → In x xs → p x ≡ true → In x (keep p xs)
  unfolding keep
  keep-In p x [] h e = absurd h
  keep-In p x (y ∷ ys) (inl q) e = rw (← q, e) (inl refl)
  keep-In p x (y ∷ ys) (inr m) e = elim (Bool-cases (p y)) [
    | inl t ↦ rw t (inr (keep-In p x ys m e))
    | inr t ↦ rw t (keep-In p x ys m e)
  ]

  pub All-update_where :
      (P : A → Type 0) (p : A → Bool) (f : A → A)
      → ((x : A) → p x ≡ true → P x → P (f x))
      → (xs : List A) → All P xs
      → All P (update_where p f xs)
  unfolding update_where
  All-update_where P p f k [] h = tt
  All-update_where P p f k (x ∷ xs) h = elim (Bool-cases (p x)) [
    | inl e ↦ rw e (k x e h.0, All-update_where P p f k xs h.1)
    | inr e ↦ rw e (h.0, All-update_where P p f k xs h.1)
  ]

  -- A write that is undone row by row is undone in the table.
  pub update_where-update_where :
      (p q : A → Bool) (f g : A → A)
      → ((x : A) → p x ≡ true → (q (f x) ≡ true) × (g (f x) ≡ x))
      → ((x : A) → p x ≡ false → q x ≡ false)
      → (xs : List A) → update_where q g (update_where p f xs) ≡ xs
  unfolding update_where
  update_where-update_where p q f g hit miss [] = refl
  update_where-update_where p q f g hit miss (x ∷ xs) = elim (Bool-cases (p x)) [
    | inl e ↦ rw (e, (hit x e).0, (hit x e).1, update_where-update_where p q f g hit miss xs)
    | inr e ↦ rw (e, miss x e, update_where-update_where p q f g hit miss xs)
  ]

  -- A write to columns that a test does not read.
  pub any-update_where :
      (p q : A → Bool) (f : A → A)
      → ((x : A) → q (f x) ≡ q x)
      → (xs : List A) → any q (update_where p f xs) ≡ any q xs
  unfolding any update_where
  any-update_where p q f e [] = refl
  any-update_where p q f e (x ∷ xs) = elim (Bool-cases (p x)) [
    | inl t ↦ rw (t, e x, any-update_where p q f e xs)
    | inr t ↦ rw (t, any-update_where p q f e xs)
  ]

  pub update_where-no_rows :
      (p : A → Bool) (f : A → A) (xs : List A) → any p xs ≡ false → update_where p f xs ≡ xs
  unfolding any update_where
  update_where-no_rows p f [] h = refl
  update_where-no_rows p f (x ∷ xs) h = elim (Bool-cases (p x)) [
    | inl t ↦ cc
    | inr t ↦ rw (t, update_where-no_rows p f xs (rw t at h))
  ]

  pub All-update_cases :
      (P Q : A → Type 0) (p : A → Bool) (f : A → A)
      → ((x : A) → p x ≡ true → P x → Q (f x))
      → ((x : A) → p x ≡ false → P x → Q x)
      → (xs : List A) → All P xs
      → All Q (update_where p f xs)
  unfolding update_where
  All-update_cases P Q p f hit miss [] h = tt
  All-update_cases P Q p f hit miss (x ∷ xs) h = elim (Bool-cases (p x)) [
    | inl e ↦ rw e (hit x e h.0, All-update_cases P Q p f hit miss xs h.1)
    | inr e ↦ rw e (miss x e h.0, All-update_cases P Q p f hit miss xs h.1)
  ]
