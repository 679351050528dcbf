-- ===== src/Common/Text.antt =====
-- Numbers as texts, and texts joined.
use Prim.Native.String.{◌++◌ as ◌<>◌}
use mathlib.Core.List.{List, [], ◌∷◌}
use Prim.Native.Nat.{ℕ, zero, suc, ◌/◌, ◌%◌}
use Prim.Native.String.{String}
use kryon.Common.Tests.{◌==◌, if◌then◌else◌}

-- The digit `d` of a base up to 16.
unfoldable pub digit : ℕ → String
digit d =
    if d == 0
    then "0"
    else if d == 1
    then "1"
    else if d == 2
    then "2"
    else if d == 3
    then "3"
    else if d == 4
    then "4"
    else if d == 5
    then "5"
    else if d == 6
    then "6"
    else if d == 7
    then "7"
    else if d == 8
    then "8"
    else if d == 9
    then "9"
    else if d == 10
    then "a"
    else if d == 11
    then "b"
    else if d == 12
    then "c"
    else if d == 13
    then "d"
    else if d == 14
    then "e"
    else "f"

-- A number in a base; each round divides by the base, so that as many rounds as the number suffice.
unfoldable pub to_base : ℕ → ℕ → ℕ → String → String
to_base base zero n out = out
to_base base (suc fuel) n out =
    let rest = to_base base fuel (n / base) (digit (n % base) <> out) in
    if n == 0 then out else rest

-- `n.toString()` and `n.toString(16)`
unfoldable pub to_decimal : ℕ → String
unfolding to_base digit
to_decimal n = if n == 0 then "0" else to_base 10 n n ""

unfoldable pub to_hex : ℕ → String
unfolding to_base digit
to_hex n = if n == 0 then "0" else to_base 16 n n ""

-- `parts.join(separator)`
unfoldable pub join : String → List String → String
join separator [] = ""
join separator (x ∷ []) = x
join separator (x ∷ y ∷ ys) = x <> separator <> join separator (y ∷ ys)
