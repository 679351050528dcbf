-- ===== src/Orders/Submit/Accepted.antt =====
-- The orders that a client sends, as client/app/api/orders/route.ts reads them.
use kryon.Common.{
  ℕ, ◌+◌, ◌≤◌, ◌<◌, ◌≡◌, refl, ap, ◌∙◌, String, false, Option, some, arith, ltb, leb, to_decimal,
}
use kryon.Common.Int.{pos}
use kryon.Database.Exec.{ok}
use kryon.Http.{Value, Json, object, text, number}
use kryon.Http.Text.{text_length}
use kryon.Http.Text.Decimal.{parse_signed-to_decimal}
use kryon.Signing.{OrderPayload, order_settlement_message, assert_u64, max_u64}
use kryon.Orders.Validation.{
  ValidationConfig, ValidationResult, valid, parse_big_int, above_zero, u64, known_market, need,
  at_most, check_expiry, check_signature, validate_fields, validate_order_intent, after_owner,
  after_market, after_is_long, after_reduce_only, size_bound, price_bound, after_price, after_nonce,
  valid_owner, min_ttl_seconds, max_ttl_seconds,
}
use kryon.Orders.Validation.Accepted.{IsAdmissible}
use kryon.Orders.Nonce.{OrderIntent, order_intent_to_json}
use kryon.Orders.Submit.{ClientConfig, order_fields, of_answer, submit_order}

parse_big_int-to_decimal : (n : ℕ) → parse_big_int (text (to_decimal n)) ≡ some (pos n)
unfolding parse_big_int
parse_big_int-to_decimal n = parse_signed-to_decimal n

above_zero-pos : (n : ℕ) → 0 < n → above_zero (some (pos n)) ≡ some n
above_zero-pos n h = ground arith

u64-pos : (n : ℕ) → n ≤ max_u64 → u64 (some (pos n)) ≡ some n
unfolding assert_u64
u64-pos n h = ground arith

u64-to_decimal : (n : ℕ) → n ≤ max_u64 → u64 (parse_big_int (text (to_decimal n))) ≡ some n
u64-to_decimal n h = ap u64 (parse_big_int-to_decimal n) ∙ u64-pos n h

above_zero-to_decimal : (n : ℕ) → 0 < n → above_zero (parse_big_int (text (to_decimal n))) ≡ some n
above_zero-to_decimal n h = ap above_zero (parse_big_int-to_decimal n) ∙ above_zero-pos n h

-- Each step of the validation passes an order that is admissible.
module _ (c : ValidationConfig) (now : ℕ) (passphrase signature : String) (o : OrderPayload)
    (h : IsAdmissible c now passphrase signature o) (short : text_length signature ≤ 256)
    (early : now + max_ttl_seconds ≤ max_u64) where
  abbrev b : String → Value
  b = order_fields o signature

  signature_passes : check_signature c passphrase o (some signature) ≡ valid o
  unfolding check_signature
  signature_passes =
      let e : ltb 256 (text_length signature) ≡ false = ground arith in rw (e, h.signed) refl

  nonce_passes :
      after_nonce c now passphrase b o.owner o.market_id o.is_long o.reduce_only o.size
        o.limit_price o.nonce o.expiry_ts
      ≡ valid o
  unfolding after_nonce order_fields
  nonce_passes = signature_passes

  expiry_passes :
      (next : ℕ → ValidationResult)
      → check_expiry (now + min_ttl_seconds) (now + max_ttl_seconds) next (some o.expiry_ts)
        ≡ next o.expiry_ts
  unfolding check_expiry
  expiry_passes next =
      let low : leb o.expiry_ts (now + min_ttl_seconds) ≡ false = ground (arith, h.expiry_low) in
      let high : ltb (now + max_ttl_seconds) o.expiry_ts ≡ false = ground (arith, h.expiry_high) in
      rw (low, high) refl

  price_passes :
      after_price c now passphrase b o.owner o.market_id o.is_long o.reduce_only o.size
        o.limit_price o.nonce
      ≡ valid o
  unfolding after_price order_fields
  price_passes =
      ap (check_expiry (now + min_ttl_seconds) (now + max_ttl_seconds) _)
        (u64-to_decimal o.expiry_ts (omega (arith, h.expiry_high)))
      ∙ expiry_passes _
      ∙ nonce_passes

  at_most_passes :
      (high : ℕ) (e : String) (next : ℕ → ValidationResult) (n : ℕ)
      → n ≤ high
      → at_most high e next n ≡ next n
  unfolding at_most
  at_most_passes high e next n k = let t : ltb high n ≡ false = ground arith in rw t refl

  need_passes :
      {A : Type 0} (e : String) (next : A → ValidationResult) (r : Option A) (a : A)
      → r ≡ some a
      → need e next r ≡ next a
  unfolding need
  need_passes e next r a k = rw k refl

  bound_passes :
      price_bound c now passphrase b o.owner o.market_id o.is_long o.reduce_only o.size
        o.limit_price
      ≡ valid o
  unfolding price_bound order_fields
  bound_passes = need_passes _ _ _ o.nonce (u64-to_decimal o.nonce h.nonce_high) ∙ price_passes

  size_passes :
      size_bound c now passphrase b o.owner o.market_id o.is_long o.reduce_only o.size ≡ valid o
  unfolding size_bound order_fields
  size_passes =
      need_passes _ _ _ o.limit_price (above_zero-to_decimal o.limit_price h.price_low)
      ∙ at_most_passes _ _ _ o.limit_price h.price_high
      ∙ bound_passes

  reduce_only_passes :
      after_reduce_only c now passphrase b o.owner o.market_id o.is_long o.reduce_only ≡ valid o
  unfolding after_reduce_only order_fields
  reduce_only_passes =
      need_passes _ _ _ o.size (above_zero-to_decimal o.size h.size_low)
      ∙ at_most_passes _ _ _ o.size h.size_high
      ∙ size_passes

  market_passes : after_market c now passphrase b o.owner o.market_id ≡ valid o
  unfolding after_market after_is_long need order_fields
  market_passes = reduce_only_passes

  owner_passes :
      c.integer_of (number (to_decimal o.market_id)) ≡ some (pos o.market_id)
      → after_owner c now passphrase b o.owner ≡ valid o
  unfolding after_owner order_fields
  owner_passes read =
      let known : known_market c (some (pos o.market_id)) ≡ some o.market_id = rw h.market refl in
      need_passes _ _ _ o.market_id (ap (known_market c) read ∙ known) ∙ market_passes

  fields_pass :
      c.integer_of (number (to_decimal o.market_id)) ≡ some (pos o.market_id)
      → validate_fields c now passphrase b ≡ valid o
  unfolding validate_fields order_fields
  fields_pass read =
      let owner : valid_owner c (some o.owner) ≡ some o.owner = rw h.owner_key refl in
      need_passes _ _ _ o.owner owner ∙ owner_passes read

-- When the client has the key of the owner and the wallet signs the message of the intent, `submitOrder` sends a body
-- that the server accepts as that very order, where its owner key, its market, its bounds, its expiry and its
-- signature are as the validation promises, the signature has at most 256 characters, the clock leaves room in 64
-- bits, and `Number` reads the market back: the other numbers that the client prints are read back as they were.
pub submit_order-accepted :
    (client : ClientConfig) (c : ValidationConfig) (now : ℕ) (signature : String) (i : OrderIntent)
    → let o = order_intent_to_json i in
      let hex = c.pubkey_hex_from_address i.owner in
      client.pubkey_hex_from_address i.owner ≡ ok hex
      → client.freighter_sign_message (order_settlement_message client.passphrase hex o) i.owner
        ≡ ok signature
      → IsAdmissible c now client.passphrase signature o
      → text_length signature ≤ 256
      → now + max_ttl_seconds ≤ max_u64
      → c.integer_of (number (to_decimal i.market_id)) ≡ some (pos i.market_id)
      → (body : Json) × (submit_order client i ≡ of_answer (client.post_order body))
        × (validate_order_intent c now client.passphrase body ≡ valid o)
unfolding submit_order validate_order_intent order_intent_to_json
submit_order-accepted client c now signature i key signed h short early read =
    let o = order_intent_to_json i in
    (
      object (order_fields o signature),
      rw (key, signed) refl,
      fields_pass c now client.passphrase signature o h short early read,
    )
