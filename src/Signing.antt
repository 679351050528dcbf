-- ===== src/Signing.antt =====
-- client/lib/market/signing-message.ts: the texts that a trader signs.
use kryon.Common.{
  ℕ, ◌-◌, ◌^◌, String, ◌<>◌, Bool, List, [], ◌∷◌, map, leb, if◌then◌else◌, join, to_decimal,
}

abbrev pub app_domain : String
app_domain = "kryon.perps"

abbrev pub max_u64 : ℕ
max_u64 = 2 ^ 64 - 1

abbrev pub cancel_all_window_seconds : ℕ
cancel_all_window_seconds = 60

-- The payload of an order without its signature. `size` and the like are texts there; a text that the
-- callers pass is the decimal of the number that stands here.
pub record OrderPayload : Type 0 where
  pub owner : String
  pub market_id : ℕ
  pub is_long : Bool
  pub size : ℕ
  pub limit_price : ℕ
  pub reduce_only : Bool
  pub nonce : ℕ
  pub expiry_ts : ℕ

unfoldable pub canonical_pairs : List (String × String) → String
canonical_pairs pairs = join "\n" (map (λ p. p.0 <> "=" <> p.1) pairs)

abbrev pub bool_text : Bool → String
bool_text b = if b then "true" else "false"

abbrev pub bit_text : Bool → String
bit_text b = if b then "1" else "0"

unfoldable pub order_signing_message : OrderPayload → String → String
unfolding canonical_pairs
order_signing_message o passphrase = canonical_pairs (
    ("domain", app_domain)
    ∷ ("action", "place_order")
    ∷ ("network", passphrase)
    ∷ ("owner", o.owner)
    ∷ ("market_id", to_decimal o.market_id)
    ∷ ("is_long", bool_text o.is_long)
    ∷ ("size", to_decimal o.size)
    ∷ ("limit_price", to_decimal o.limit_price)
    ∷ ("reduce_only", bool_text o.reduce_only)
    ∷ ("nonce", to_decimal o.nonce)
    ∷ ("expiry_ts", to_decimal o.expiry_ts)
    ∷ [])

unfoldable pub order_settlement_message : String → String → OrderPayload → String
order_settlement_message domain pubkey_hex o = join "|" (
    domain
    ∷ "place_order"
    ∷ pubkey_hex
    ∷ to_decimal o.market_id
    ∷ bit_text o.is_long
    ∷ to_decimal o.size
    ∷ to_decimal o.limit_price
    ∷ bit_text o.reduce_only
    ∷ to_decimal o.nonce
    ∷ to_decimal o.expiry_ts
    ∷ [])

unfoldable pub cancel_signing_message : String → ℕ → String → String
unfolding canonical_pairs
cancel_signing_message owner nonce passphrase = canonical_pairs (
    ("domain", app_domain)
    ∷ ("action", "cancel_order")
    ∷ ("network", passphrase)
    ∷ ("owner", owner)
    ∷ ("nonce", to_decimal nonce)
    ∷ [])

-- A market to cancel in, or all of them.
pub data Scope : Type 0 where
  every_market : Scope
  one_market : ℕ → Scope

abbrev pub scope_text : Scope → String
scope_text every_market = "all"
scope_text (one_market id) = to_decimal id

unfoldable pub cancel_all_signing_message : String → String → Scope → String → String
unfolding canonical_pairs
cancel_all_signing_message owner issued_at scope passphrase = canonical_pairs (
    ("domain", app_domain)
    ∷ ("action", "cancel_all")
    ∷ ("network", passphrase)
    ∷ ("owner", owner)
    ∷ ("market_id", scope_text scope)
    ∷ ("issued_at", issued_at)
    ∷ [])

-- The numbers that reach it are not negative: their patterns admit no sign, or the caller has tested.
unfoldable pub assert_u64 : ℕ → Bool
assert_u64 n = leb n max_u64
