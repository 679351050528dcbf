-- ===== src/Orders/Validation/Accepted.antt =====
-- What client/lib/validation.ts promises of an order that it accepts.
use kryon.Common.{
  ℕ, ◌+◌, ◌≤◌, ◌<◌, ◌≡◌, refl, subst, String, true, Option, none, some, ◌==◌, any, arith,
}
use kryon.Common.Int.{ℤ, pos, negsuc}
use kryon.Http.{Value, object, as_text, as_boolean}
use kryon.Signing.{OrderPayload, order_settlement_message, assert_u64, max_u64}
use kryon.Orders.Validation.{
  ValidationConfig, ValidationResult, valid, need, at_most, check_expiry, check_signature,
  validate_fields, validate_order_intent, after_owner, after_market, after_is_long,
  after_reduce_only, size_bound, price_bound, after_price, after_nonce, above_zero, u64,
  valid_owner, known_market, parse_big_int, max_size, max_price, min_ttl_seconds, max_ttl_seconds,
}

-- What an accepted order promises.
pub record IsAdmissible (c : ValidationConfig) (now : ℕ) (passphrase signature : String)
    (o : OrderPayload) : Type 0 where
  pub owner_key : c.is_valid_public_key o.owner ≡ true
  pub market : any (λ m. m == o.market_id) c.valid_market_ids ≡ true
  pub size_low : 0 < o.size
  pub size_high : o.size ≤ max_size
  pub price_low : 0 < o.limit_price
  pub price_high : o.limit_price ≤ max_price
  pub nonce_high : o.nonce ≤ max_u64
  pub expiry_low : now + min_ttl_seconds < o.expiry_ts
  pub expiry_high : o.expiry_ts ≤ now + max_ttl_seconds
  pub signed :
      c.verify_signed_message o.owner
        (order_settlement_message passphrase (c.pubkey_hex_from_address o.owner) o)
        signature
      ≡ true

-- Each test of an accepted order has passed.
module _ {o : OrderPayload} {C : Type 0} where
  need-valid :
      {A : Type 0} (e : String) (next : A → ValidationResult) (a : Option A)
      → need e next a ≡ valid o
      → ((x : A) → a ≡ some x → next x ≡ valid o → C)
      → C
  unfolding need
  need-valid e next none h k = grind arith
  need-valid e next (some x) h k = k x refl h

  at_most-valid :
      (high : ℕ) (e : String) (next : ℕ → ValidationResult) (n : ℕ)
      → at_most high e next n ≡ valid o
      → (n ≤ high → next n ≡ valid o → C)
      → C
  unfolding at_most
  at_most-valid high e next n h k = k (ground arith) (ground arith)

  check_expiry-valid :
      (low high : ℕ) (next : ℕ → ValidationResult) (n : Option ℕ)
      → check_expiry low high next n ≡ valid o
      → ((x : ℕ) → low < x → x ≤ high → next x ≡ valid o → C)
      → C
  unfolding check_expiry
  check_expiry-valid low high next none h k = grind arith
  check_expiry-valid low high next (some n) h k = k n (ground arith) (ground arith) (ground arith)

check_signature-valid :
    {o : OrderPayload} (c : ValidationConfig) (passphrase : String) (p : OrderPayload)
    (s : Option String)
    → check_signature c passphrase p s ≡ valid o
    → (p ≡ o)
      × ((t : String) × (s ≡ some t)
          × (c.verify_signed_message p.owner
                (order_settlement_message passphrase (c.pubkey_hex_from_address p.owner) p)
                t
              ≡ true))
unfolding check_signature
check_signature-valid c passphrase p none h = grind arith
check_signature-valid c passphrase p (some s) h = (ground arith, (s, refl, ground arith))

valid_owner-key :
    (c : ValidationConfig) (s : Option String) (owner : String)
    → valid_owner c s ≡ some owner
    → c.is_valid_public_key owner ≡ true
valid_owner-key c none owner h = ground arith
valid_owner-key c (some s) owner h = ground arith

known_market-any :
    (c : ValidationConfig) (m : Option ℤ) (id : ℕ)
    → known_market c m ≡ some id
    → any (λ k. k == id) c.valid_market_ids ≡ true
known_market-any c none id h = ground arith
known_market-any c (some (negsuc n)) id h = ground arith
known_market-any c (some (pos n)) id h = ground arith

above_zero-lt : (m : Option ℤ) (n : ℕ) → above_zero m ≡ some n → 0 < n
above_zero-lt none n h = ground arith
above_zero-lt (some (negsuc k)) n h = ground arith
above_zero-lt (some (pos k)) n h = ground arith

u64-le : (m : Option ℤ) (n : ℕ) → u64 m ≡ some n → n ≤ max_u64
unfolding assert_u64
u64-le none n h = ground arith
u64-le (some (negsuc k)) n h = ground arith
u64-le (some (pos k)) n h = ground arith

-- An accepted order has the key of an account as its owner, a market of the exchange, a size and a price
-- within their bounds, a nonce of 64 bits, an expiry more than five seconds and at most seven days away,
-- and the signature of its owner over all of these.
pub validate_order_intent-IsAdmissible :
    (c : ValidationConfig) (now : ℕ) (passphrase : String) (b : String → Value) (o : OrderPayload)
    → validate_order_intent c now passphrase (object b) ≡ valid o
    → (signature : String) × (as_text (b "signature") ≡ some signature)
      × IsAdmissible c now passphrase signature o
unfolding validate_order_intent validate_fields after_owner after_market after_is_long
    after_reduce_only size_bound price_bound after_price after_nonce
validate_order_intent-IsAdmissible c now passphrase b o h =
    need-valid _ (after_owner c now passphrase b) (valid_owner c (as_text (b "owner"))) h
      λ owner owner_eq h.
        need-valid _ (after_market c now passphrase b owner)
          (known_market c (c.integer_of (b "market_id"))) h
          λ market market_eq h.
            need-valid _ (after_is_long c now passphrase b owner market) (as_boolean (b "is_long"))
              h
              λ is_long _ h.
                need-valid _ (after_reduce_only c now passphrase b owner market is_long)
                  (as_boolean (b "reduce_only")) h
                  λ reduce_only _ h.
                    let size_next =
                      size_bound c now passphrase b owner market is_long reduce_only in
                    need-valid _ (at_most max_size "size exceeds maximum" size_next)
                      (above_zero (parse_big_int (b "size"))) h
                      λ size size_eq h. at_most-valid max_size _ size_next size h λ size_high h.
                        let price_next =
                          price_bound c now passphrase b owner market is_long reduce_only size in
                        need-valid _ (at_most max_price "limit_price exceeds maximum" price_next)
                          (above_zero (parse_big_int (b "limit_price"))) h
                          λ price price_eq h.
                            at_most-valid max_price _ price_next price h λ price_high h.
                              need-valid _
                                (after_price c now passphrase b owner market is_long reduce_only
                                  size price)
                                (u64 (parse_big_int (b "nonce"))) h
                                λ nonce nonce_eq h.
                                  let last_next =
                                    after_nonce c now passphrase b owner market is_long reduce_only
                                      size price nonce in
                                  check_expiry-valid (now + min_ttl_seconds) (now + max_ttl_seconds)
                                    last_next (u64 (parse_big_int (b "expiry_ts"))) h
                                    λ expiry expiry_low expiry_high h.
                                      let (same, (signature, signature_eq, signed)) =
                                        check_signature-valid c passphrase _
                                          (as_text (b "signature")) h in
                                      (
                                        signature,
                                        signature_eq,
                                        subst (IsAdmissible c now passphrase signature) same
                                            (record {
                                              owner_key = valid_owner-key c _ owner owner_eq;
                                              market = known_market-any c _ market market_eq;
                                              size_low =
                                                  above_zero-lt (parse_big_int (b "size")) size
                                                    size_eq;
                                              size_high = size_high;
                                              price_low =
                                                  above_zero-lt (parse_big_int (b "limit_price"))
                                                    price price_eq;
                                              price_high = price_high;
                                              nonce_high =
                                                  u64-le (parse_big_int (b "nonce")) nonce nonce_eq;
                                              expiry_low = expiry_low;
                                              expiry_high = expiry_high;
                                              signed = signed;
                                            }),
                                      )
