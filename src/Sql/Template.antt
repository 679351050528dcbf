-- ===== src/Sql/Template.antt =====
-- What the template sends: no value but raw SQL enters the text of a query.
use kryon.Common.{
  ℕ, ◌+◌, ◌≡◌, refl, ap, ◌∙◌, String, ◌<>◌, List, [], ◌∷◌, ◌++◌, length, length-append, map,
  to_decimal,
}
use mathlib.Core.List.{append-nil, append_assoc}
use text.Mathlib.TextLemmas.{
  append-nil as text_nil, append_assoc as text_assoc, nil-append as nil-text,
}
use kryon.Sql.{Value, raw_sql, plain, build_from, build_query}

-- A value with what it holds forgotten, unless it is raw SQL
unfoldable pub shape : {A : Type 0} → Value A → Value (Unit {0})
shape (raw_sql t) = raw_sql t
shape (plain v) = plain tt

-- The text of a template whose values have these shapes, the first of them to be numbered `n`
unfoldable pub numbered : ℕ → List String → List (Value (Unit {0})) → String
numbered n [] shapes = ""
numbered n (s ∷ strings) [] = s <> numbered n strings []
numbered n (s ∷ strings) (raw_sql t ∷ shapes) = s <> (t <> numbered n strings shapes)
numbered n (s ∷ strings) (plain u ∷ shapes) =
    s <> ("$" <> (to_decimal n <> numbered (n + 1) strings shapes))

-- The values in the order of the template that are not raw SQL; a value past the last string is none of it.
unfoldable pub params_of : {A : Type 0} → List String → List (Value A) → List A
params_of [] values = []
params_of (s ∷ strings) [] = []
params_of (s ∷ strings) (raw_sql t ∷ values) = params_of strings values
params_of (s ∷ strings) (plain v ∷ values) = v ∷ params_of strings values

params_of_nil : {A : Type 0} (strings : List String) → params_of {A = A} strings [] ≡ []
unfolding params_of
params_of_nil [] = refl
params_of_nil (s ∷ strings) = refl

build_from_lem :
    {A : Type 0} (strings : List String) (values : List (Value A)) (text : String) (params : List A)
    → build_from strings values text params ≡ (
      text <> numbered (length params + 1) strings (map shape values),
      params ++ params_of strings values,
    )
unfolding build_from numbered params_of shape
build_from_lem [] values text params = simp (text_nil, append-nil)
build_from_lem (s ∷ strings) [] text params =
    build_from_lem strings [] (text <> s) params ∙ simp (text_assoc, append-nil, params_of_nil)
build_from_lem (s ∷ strings) (raw_sql t ∷ values) text params =
    build_from_lem strings values (text <> s <> t) params ∙ simp text_assoc
build_from_lem (s ∷ strings) (plain v ∷ values) text params =
    build_from_lem strings values (text <> s <> "$" <> to_decimal (length params + 1))
      (params ++ v ∷ [])
    ∙ simp (text_assoc, length-append, append_assoc)

-- What buildQuery sends is the text of the template with $1, $2, … in place of the values, numbered in their order, and
-- those values as the parameters. The text depends on the values only through the raw SQL among them.
pub build_query-numbered :
    {A : Type 0} (strings : List String) (values : List (Value A))
    → build_query strings values ≡ (numbered 1 strings (map shape values), params_of strings values)
unfolding build_query
build_query-numbered strings values =
    build_from_lem strings values "" [] ∙ ap (λ t. (t, params_of strings values)) (nil-text _)
