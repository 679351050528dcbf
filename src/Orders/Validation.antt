-- ===== src/Orders/Validation.antt =====
-- client/lib/validation.ts: which order intents the server accepts.
pub mod Accepted
use kryon.Common.{
  ℕ, ◌+◌, ◌*◌, ◌^◌, ◌≤◌, ◌<◌, ◌≡◌, refl, String, Bool, true, false, not, ◌&&◌, Option, none, some,
  List, ltb, leb, ◌==◌, if◌then◌else◌, any, arith,
}
use kryon.Common.Int.{ℤ, pos, negsuc}
use kryon.Http.{
  Value, Json, null_body, scalar, object, missing, null, other, boolean, number, text, as_text,
  as_boolean,
}
use kryon.Http.Text.{trim, parse_signed, text_length}
use kryon.Signing.{OrderPayload, order_settlement_message, assert_u64, max_u64}

abbrev pub max_size : ℕ
max_size = 1000000000 * 10 ^ 7

abbrev pub max_price : ℕ
max_price = 10000000 * 10 ^ 18

abbrev pub max_ttl_seconds : ℕ
max_ttl_seconds = 7 * 24 * 3600

abbrev pub min_ttl_seconds : ℕ
min_ttl_seconds = 5

-- The markets of client/config, `Number` of the language where the result is an integer, and the
-- functions of the repository that wrap the Stellar SDK: isValidEd25519PublicKey,
-- pubkeyHexFromAddress and verifySignedMessage.
pub record ValidationConfig : Type 0 where
  pub valid_market_ids : List ℕ
  pub integer_of : Value → Option ℤ
  pub is_valid_public_key : String → Bool
  pub pubkey_hex_from_address : String → String
  pub verify_signed_message : String → String → String → Bool

pub data ValidationResult : Type 0 where
  valid : OrderPayload → ValidationResult
  invalid : String → ValidationResult

abbrev pub parse_text : Option String → Option ℤ
parse_text none = none
parse_text (some s) = parse_signed (trim s)

abbrev pub printed : Value → Option String
printed (text s) = some s
printed (number s) = some s
printed missing = none
printed null = none
printed (other s) = none
printed (boolean b) = none

unfoldable pub parse_big_int : Value → Option ℤ
parse_big_int v = parse_text (printed v)

-- A number that parsed, where it is positive, and where it is not negative and has at most 64 bits
abbrev pub above_zero : Option ℤ → Option ℕ
above_zero none = none
above_zero (some (negsuc n)) = none
above_zero (some (pos n)) = if n == 0 then none else some n

abbrev pub u64 : Option ℤ → Option ℕ
u64 none = none
u64 (some (negsuc n)) = none
u64 (some (pos n)) = if assert_u64 n then some n else none

abbrev pub valid_owner : ValidationConfig → Option String → Option String
valid_owner c none = none
valid_owner c (some s) = if c.is_valid_public_key s then some s else none

abbrev pub known_market : ValidationConfig → Option ℤ → Option ℕ
known_market c none = none
known_market c (some (negsuc n)) = none
known_market c (some (pos n)) = if any (λ m. m == n) c.valid_market_ids then some n else none

abbrev pub price_error : String
price_error =
    "limit_price must be a positive integer; for a market order send an aggressive crossing limit (e.g. 2x mark to buy, 0.5x to sell) rather than 0"

-- The tests of the signature, of the expiry, of the nonce, of the price and of the size, each with those
-- that follow it.
unfoldable pub check_signature :
    ValidationConfig → String → OrderPayload → Option String → ValidationResult
check_signature c passphrase o none = invalid "Missing order signature"
check_signature c passphrase o (some s) =
    let message = order_settlement_message passphrase (c.pubkey_hex_from_address o.owner) o in
    if ltb 256 (text_length s)
    then invalid "Missing order signature"
    else if c.verify_signed_message o.owner message s
    then valid o
    else invalid "Invalid order signature"

unfoldable pub check_expiry : ℕ → ℕ → (ℕ → ValidationResult) → Option ℕ → ValidationResult
check_expiry low high next none = invalid "expiry_ts must be a uint64 integer"
check_expiry low high next (some expiry) =
    if leb expiry low
    then invalid "expiry_ts is too soon"
    else if ltb high expiry
    then invalid "expiry_ts too far in the future"
    else next expiry

unfoldable pub need : {A : Type 0} → String → (A → ValidationResult) → Option A → ValidationResult
need e next none = invalid e
need e next (some a) = next a

unfoldable pub at_most : ℕ → String → (ℕ → ValidationResult) → ℕ → ValidationResult
at_most high e next n = if ltb high n then invalid e else next n

-- The steps of `validateOrderIntent` on the fields `b`, each with those that follow it. `now` is the clock
-- of the server, in seconds; `passphrase` that of the network of the request.
module _ (c : ValidationConfig) (now : ℕ) (passphrase : String) (b : String → Value) where
  unfoldable pub after_nonce : String → ℕ → Bool → Bool → ℕ → ℕ → ℕ → ℕ → ValidationResult
  after_nonce owner market_id is_long reduce_only size limit_price nonce expiry_ts =
      check_signature c passphrase
        (record {
          owner = owner;
          market_id = market_id;
          is_long = is_long;
          size = size;
          limit_price = limit_price;
          reduce_only = reduce_only;
          nonce = nonce;
          expiry_ts = expiry_ts;
        })
        (as_text (b "signature"))

  unfoldable pub after_price : String → ℕ → Bool → Bool → ℕ → ℕ → ℕ → ValidationResult
  after_price owner market_id is_long reduce_only size limit_price nonce =
      check_expiry (now + min_ttl_seconds) (now + max_ttl_seconds)
        (after_nonce owner market_id is_long reduce_only size limit_price nonce)
        (u64 (parse_big_int (b "expiry_ts")))

  unfoldable pub price_bound : String → ℕ → Bool → Bool → ℕ → ℕ → ValidationResult
  price_bound owner market_id is_long reduce_only size limit_price =
      need "nonce must be a uint64 integer"
        (after_price owner market_id is_long reduce_only size limit_price)
        (u64 (parse_big_int (b "nonce")))

  unfoldable pub size_bound : String → ℕ → Bool → Bool → ℕ → ValidationResult
  size_bound owner market_id is_long reduce_only size =
      need price_error
        (at_most max_price "limit_price exceeds maximum"
          (price_bound owner market_id is_long reduce_only size))
        (above_zero (parse_big_int (b "limit_price")))

  unfoldable pub after_reduce_only : String → ℕ → Bool → Bool → ValidationResult
  after_reduce_only owner market_id is_long reduce_only =
      need "size must be a positive integer"
        (at_most max_size "size exceeds maximum" (size_bound owner market_id is_long reduce_only))
        (above_zero (parse_big_int (b "size")))

  unfoldable pub after_is_long : String → ℕ → Bool → ValidationResult
  after_is_long owner market_id is_long =
      need "reduce_only must be boolean" (after_reduce_only owner market_id is_long)
        (as_boolean (b "reduce_only"))

  unfoldable pub after_market : String → ℕ → ValidationResult
  after_market owner market_id =
      need "is_long must be boolean" (after_is_long owner market_id) (as_boolean (b "is_long"))

  unfoldable pub after_owner : String → ValidationResult
  after_owner owner =
      need "Unknown market_id" (after_market owner) (known_market c (c.integer_of (b "market_id")))

  unfoldable pub validate_fields : ValidationResult
  validate_fields = need "Invalid owner address" after_owner (valid_owner c (as_text (b "owner")))

unfoldable pub validate_order_intent : ValidationConfig → ℕ → String → Json → ValidationResult
validate_order_intent c now passphrase null_body = invalid "Body must be an object"
validate_order_intent c now passphrase scalar = invalid "Body must be an object"
validate_order_intent c now passphrase (object b) = validate_fields c now passphrase b
