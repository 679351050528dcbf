-- ===== src/Common/Assoc.antt =====
-- A JavaScript `Map` with texts as its keys: the pairs in the order of insertion.
use mathlib.Core.Path.{◌≡◌, refl}
use mathlib.Core.Bool.{true, false}
use mathlib.Core.Option.{Option, none, some}
use mathlib.Core.List.{List, [], ◌∷◌}
use Prim.Native.String.{String}
use text.Mathlib.Text.{◌==◌ as str_eq}
use text.Mathlib.TextEquality.{eq_iff}
use native.Mathlib.Omega.{arith}
use kryon.Common.Tests.{if◌then◌else◌}

pub str_eq_refl : (a : String) → str_eq a a ≡ true
str_eq_refl a = ground (arith, eq_iff a a)

module _ {A : Type 0} where
  -- `map.get(key)`
  unfoldable pub get_key : String → List (String × A) → Option A
  get_key key [] = none
  get_key key ((k, v) ∷ rest) =
      let others = get_key key rest in if str_eq k key then some v else others

  -- `map.set(key, v)`
  unfoldable pub set_key : String → A → List (String × A) → List (String × A)
  set_key key v [] = (key, v) ∷ []
  set_key key v ((k, w) ∷ rest) =
      let others = set_key key v rest in if str_eq k key then (k, v) ∷ rest else (k, w) ∷ others

  -- `map.delete(key)`
  unfoldable pub delete_key : String → List (String × A) → List (String × A)
  delete_key key [] = []
  delete_key key ((k, v) ∷ rest) =
      let others = delete_key key rest in if str_eq k key then others else (k, v) ∷ others

  pub get_key-set_key :
      (key : String) (v : A) (m : List (String × A)) → get_key key (set_key key v m) ≡ some v
  unfolding get_key set_key
  get_key-set_key key v [] = rw str_eq_refl refl
  get_key-set_key key v ((k, w) ∷ rest) = ground (arith, get_key-set_key key v rest)

  pub get_key-set_key_other :
      (key other : String) (v : A) (m : List (String × A))
      → str_eq other key ≡ false
      → get_key key (set_key other v m) ≡ get_key key m
  unfolding get_key set_key
  get_key-set_key_other key other v [] h = ground arith
  get_key-set_key_other key other v ((k, w) ∷ rest) h =
      ground (arith, get_key-set_key_other key other v rest h, eq_iff k other, eq_iff k key)

  pub get_key-delete_key :
      (key : String) (m : List (String × A)) → get_key key (delete_key key m) ≡ none
  unfolding get_key delete_key
  get_key-delete_key key [] = refl
  get_key-delete_key key ((k, w) ∷ rest) = ground (arith, get_key-delete_key key rest)

  pub get_key-delete_key_other :
      (key other : String) (m : List (String × A))
      → str_eq other key ≡ false
      → get_key key (delete_key other m) ≡ get_key key m
  unfolding get_key delete_key
  get_key-delete_key_other key other [] h = refl
  get_key-delete_key_other key other ((k, w) ∷ rest) h =
      ground (arith, get_key-delete_key_other key other rest h, eq_iff k other, eq_iff k key)
