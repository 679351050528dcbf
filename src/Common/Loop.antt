-- ===== src/Common/Loop.antt =====
-- `for (const x of xs) { … continue … break … }` over a mutable state.
use mathlib.Core.Path.{◌≡◌, refl}
use mathlib.Core.Logic.{inl, inr}
use mathlib.Core.List.{List, [], ◌∷◌}
use kryon.Common.Member.{In}

pub data Flow : Type 0 where
  continue break : Flow

unfoldable pub for_each {ℓ κ} : {A : Type ℓ} {S : Type κ} → (A → S → Flow × S) → List A → S → S
for_each body [] s = s
for_each body (x ∷ xs) s =
    let (flow, s') = body x s in elim flow [ continue ↦ for_each body xs s' | break ↦ s' ]

module _ {A S : Type 0} (P : S → Type 0) (body : A → S → Flow × S) where
  by_flow :
      (xs : List A) (flow : Flow) (s : S)
      → (flow ≡ continue → P (for_each body xs s))
      → (flow ≡ break → P s)
      → P (elim flow [ continue ↦ for_each body xs s | break ↦ s ])
  by_flow xs continue s c b = c refl
  by_flow xs break s c b = b refl

  -- A loop over a non-empty list either goes on after the first round or stops there.
  pub for_each_cases :
      (x : A) (xs : List A) (s : S)
      → ((body x s).0 ≡ continue → P (for_each body xs (body x s).1))
      → ((body x s).0 ≡ break → P (body x s).1)
      → P (for_each body (x ∷ xs) s)
  unfolding for_each
  for_each_cases x xs s c b = by_flow xs (body x s).0 (body x s).1 c b

-- What one round keeps, the loop keeps.
pub for_each_inv :
    {A S : Type 0} (P : S → Type 0) (body : A → S → Flow × S) (xs : List A)
    → ((x : A) (s : S) → In x xs → P s → P (body x s).1)
    → (s : S) → P s
    → P (for_each body xs s)
unfolding for_each
for_each_inv P body [] step s h = h
for_each_inv P body (x ∷ xs) step s h =
    let k = step x s (inl refl) h in
    for_each_cases P body x xs s
      (λ _. for_each_inv P body xs (λ y t m i. step y t (inr m) i) (body x s).1 k) (λ _. k)
