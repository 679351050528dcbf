-- ===== src/Http/Text/Decimal.antt =====
-- Printed numbers are read back: `toString` of a `bigint`, then `trim`, `/^-?\d+$/` and `BigInt`.
use Prim.Native.Char.{Char, code}
use Prim.Native.String.{◌++◌ as ◌<>◌}
use text.Mathlib.TextLemmas.{cons-append, nil-append}
use kryon.Common.{
  ℕ, zero, suc, ◌+◌, ◌-◌, ◌*◌, ◌/◌, ◌%◌, ◌≤◌, ◌<◌, ◌≡◌, refl, ap, ◌∙◌, String, true, false, some,
  leb, ◌==◌, arith, Bool-cases, inl, inr, to_base, to_decimal, digit,
}
use kryon.Common.Int.{pos}
use kryon.Http.Text.{
  is_space, trim, trim_start, trim_end, is_empty, digits_value, parse_digits, parse_signed,
}

-- Every character is a decimal digit.
AreDigits : String → Type 0
AreDigits String.[] = Unit
AreDigits (String.◌∷◌ c s) = (48 ≤ code c) × (code c ≤ 57) × AreDigits s

one_char : (c : Char) (s : String) → String.◌∷◌ c String.[] <> s ≡ String.◌∷◌ c s
one_char c s = cons-append c String.[] s ∙ ap (λ t. String.◌∷◌ c t) (nil-append s)

-- A digit below ten is one character, the tenth of its code beyond 48.
digit_char :
    (d : ℕ)
    → d < 10
    → (c : Char) × ((s : String) → digit d <> s ≡ String.◌∷◌ c s) × (code c ≡ 48 + d)
unfolding digit
digit_char zero h = ("0", one_char "0", refl)
digit_char (suc zero) h = ("1", one_char "1", refl)
digit_char (suc (suc zero)) h = ("2", one_char "2", refl)
digit_char (suc (suc (suc zero))) h = ("3", one_char "3", refl)
digit_char (suc (suc (suc (suc zero)))) h = ("4", one_char "4", refl)
digit_char (suc (suc (suc (suc (suc zero))))) h = ("5", one_char "5", refl)
digit_char (suc (suc (suc (suc (suc (suc zero)))))) h = ("6", one_char "6", refl)
digit_char (suc (suc (suc (suc (suc (suc (suc zero))))))) h = ("7", one_char "7", refl)
digit_char (suc (suc (suc (suc (suc (suc (suc (suc zero)))))))) h = ("8", one_char "8", refl)
digit_char (suc (suc (suc (suc (suc (suc (suc (suc (suc zero))))))))) h = ("9", one_char "9", refl)
digit_char (suc (suc (suc (suc (suc (suc (suc (suc (suc (suc d)))))))))) h = absurd (omega arith)

AreDigits-digit : (d : ℕ) (s : String) → d < 10 → AreDigits s → AreDigits (digit d <> s)
unfolding AreDigits
AreDigits-digit d s h k =
    let (c, joined, value) = digit_char d h in
    rw (joined s) (omega (arith, value), omega (arith, value), k)

digits_value-digit :
    (n d : ℕ) (s : String) → d < 10 → digits_value n (digit d <> s) ≡ digits_value (n * 10 + d) s
unfolding digits_value
digits_value-digit n d s h =
    let (c, joined, value) = digit_char d h in
    let e : n * 10 + (code c - 48) ≡ n * 10 + d = omega (arith, value) in
    let low : leb 48 (code c) ≡ true = ground (arith, value) in
    let high : leb (code c) 57 ≡ true = ground (arith, value) in rw (joined s, e, low, high) refl

-- The digits of a number stand before those that are there, and are read as the number.
to_base-AreDigits : (fuel n : ℕ) (out : String) → AreDigits out → AreDigits (to_base 10 fuel n out)
unfolding to_base
to_base-AreDigits zero n out h = h
to_base-AreDigits (suc fuel) n out h = elim (Bool-cases (n == 0)) [
  | inl e ↦ rw e h
  | inr e ↦ rw e (
      to_base-AreDigits fuel (n / 10) (digit (n % 10) <> out)
        (AreDigits-digit (n % 10) out (omega arith) h))
]

digits_value-to_base :
    (fuel n : ℕ) (out : String)
    → n ≤ fuel
    → digits_value 0 (to_base 10 fuel n out) ≡ digits_value n out
unfolding to_base
digits_value-to_base zero n out h = let e : n ≡ 0 = omega arith in rw e refl
digits_value-to_base (suc fuel) n out h = elim (Bool-cases (n == 0)) [
  | inl e ↦ let z : n ≡ 0 = ground (arith, e) in rw (e, z) refl
  | inr e ↦
      let less : n / 10 ≤ fuel = ground (arith, e, h) in
      let whole : n / 10 * 10 + n % 10 ≡ n = omega arith in
      rw e (
        digits_value-to_base fuel (n / 10) (digit (n % 10) <> out) less
        ∙ digits_value-digit (n / 10) (n % 10) out (omega arith)
        ∙ ap (λ k. digits_value k out) whole)
]

-- Digits have no white space to trim.
trim_start-digits : (s : String) → AreDigits s → trim_start s ≡ s
unfolding AreDigits trim_start
trim_start-digits String.[] h = refl
trim_start-digits (String.◌∷◌ c s) h =
    let e : is_space (code c) ≡ false = ground (arith, h.0, h.1) in rw e refl

trim_end-digits : (s : String) → AreDigits s → trim_end s ≡ s
unfolding AreDigits trim_end
trim_end-digits String.[] h = refl
trim_end-digits (String.◌∷◌ c s) h =
    let e : is_space (code c) ≡ false = ground (arith, h.0, h.1) in
    let ih = trim_end-digits s h.2 in
    elim (Bool-cases (is_empty s)) [ inl t ↦ rw (ih, t, e) refl | inr t ↦ rw (ih, t) refl ]

trim-digits : (s : String) → AreDigits s → trim s ≡ s
unfolding trim
trim-digits s h = rw (trim_start-digits s h) (trim_end-digits s h)

parse_signed-digits :
    (s : String) (n : ℕ)
    → AreDigits s
    → is_empty s ≡ false
    → digits_value 0 s ≡ some n
    → parse_signed s ≡ some (pos n)
unfolding AreDigits is_empty parse_signed parse_digits
parse_signed-digits String.[] n h k e = absurd (ground (arith, k))
parse_signed-digits (String.◌∷◌ c s) n h k e =
    let sign : (code c == 45) ≡ false = ground (arith, h.0) in rw (sign, e) refl

digit-is_empty : (d : ℕ) (s : String) → d < 10 → is_empty (digit d <> s) ≡ false
unfolding is_empty
digit-is_empty d s h = let (c, joined, value) = digit_char d h in rw (joined s) refl

to_base-is_empty :
    (fuel n : ℕ) (out : String) → is_empty out ≡ false → is_empty (to_base 10 fuel n out) ≡ false
unfolding to_base
to_base-is_empty zero n out h = h
to_base-is_empty (suc fuel) n out h = elim (Bool-cases (n == 0)) [
  | inl e ↦ rw e h
  | inr e ↦ rw e (
      to_base-is_empty fuel (n / 10) (digit (n % 10) <> out)
        (digit-is_empty (n % 10) out (omega arith)))
]

parse_zero : parse_signed (trim "0") ≡ some (pos 0)
unfolding trim trim_start trim_end is_empty parse_signed parse_digits digits_value
parse_zero = refl

digits_value_end : (k : ℕ) → digits_value k "" ≡ some k
unfolding digits_value
digits_value_end k = refl

read_back :
    (s : String) (n : ℕ)
    → AreDigits s
    → is_empty s ≡ false
    → digits_value 0 s ≡ some n
    → parse_signed (trim s) ≡ some (pos n)
read_back s n h k e = ap parse_signed (trim-digits s h) ∙ parse_signed-digits s n h k e

to_decimal-suc : (n : ℕ) → to_decimal (suc n) ≡ to_base 10 n (suc n / 10) (digit (suc n % 10) <> "")
unfolding to_decimal to_base
to_decimal-suc n = let positive : (suc n == 0) ≡ false = ground arith in rw positive refl

-- A printed number is read back as the number.
pub parse_signed-to_decimal : (n : ℕ) → parse_signed (trim (to_decimal n)) ≡ some (pos n)
unfolding to_decimal AreDigits
parse_signed-to_decimal zero = parse_zero
parse_signed-to_decimal (suc n) =
    let last = digit (suc n % 10) <> "" in
    let whole : suc n / 10 * 10 + suc n % 10 ≡ suc n = omega arith in
    ap (λ s. parse_signed (trim s)) (to_decimal-suc n)
    ∙ read_back (to_base 10 n (suc n / 10) last) (suc n)
        (to_base-AreDigits n (suc n / 10) last (AreDigits-digit (suc n % 10) "" (omega arith) tt))
        (to_base-is_empty n (suc n / 10) last (digit-is_empty (suc n % 10) "" (omega arith)))
        (digits_value-to_base n (suc n / 10) last (omega arith)
          ∙ digits_value-digit (suc n / 10) (suc n % 10) "" (omega arith)
          ∙ digits_value_end (suc n / 10 * 10 + suc n % 10)
          ∙ ap some whole)
