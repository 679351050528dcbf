-- ===== src/Matcher/Hash.antt =====
-- `pseudoTxHash` of client/scripts/matcher-service.ts, over texts of one code unit a character: the
-- owners are Stellar addresses, and the rest are digits and colons.
use Prim.Native.Char.{code}
use kryon.Common.{
  ℕ, zero, suc, ◌+◌, ◌-◌, ◌*◌, ◌%◌, ◌^◌, String, ◌<>◌, ltb, if◌then◌else◌, to_decimal, to_hex,
}
use kryon.Matcher.Order.{RestingOrder}

-- `s.padStart(width, "0")`, where `missing` is the width less the length of `s`.
pad_zeros : ℕ → String → String
pad_zeros zero s = s
pad_zeros (suc n) s = "0" <> pad_zeros n s

text_length : String → ℕ
text_length String.[] = 0
text_length (String.◌∷◌ c s) = suc (text_length s)

-- `h = Math.imul(31, h) + raw.charCodeAt(i) | 0`, with the 32 bits of `h` read as unsigned.
scan : ℕ → String → ℕ
scan h String.[] = h
scan h (String.◌∷◌ c s) = scan ((31 * h + code c) % 2 ^ 32) s

-- `Math.abs` of the signed reading of 32 bits.
abs_int32 : ℕ → ℕ
abs_int32 h = if ltb h (2 ^ 31) then h else 2 ^ 32 - h

unfoldable pub pseudo_tx_hash : RestingOrder → RestingOrder → ℕ → String
unfolding pad_zeros text_length scan abs_int32
pseudo_tx_hash maker taker fill_size =
    let raw =
      "db:"
      <> maker.owner
      <> ":"
      <> to_decimal maker.nonce
      <> ":"
      <> taker.owner
      <> ":"
      <> to_decimal taker.nonce
      <> ":"
      <> to_decimal fill_size in
    let hex = to_hex (abs_int32 (scan 0 raw)) in "dbfill" <> pad_zeros (58 - text_length hex) hex
