-- ===== src/Orders/Nonce.antt =====
-- client/lib/market/order-intent.ts: the nonces and the intents of a session of the client.
use kryon.Common.{
  ℕ, suc, ◌+◌, ◌*◌, ◌/◌, ◌%◌, ◌<◌, String, Bool, false, Option, none, some, List, [], ◌∷◌, ltb,
  if◌then◌else◌, arith,
}
use kryon.Signing.{OrderPayload}

pub record OrderIntent : Type 0 where
  pub owner : String
  pub market_id : ℕ
  pub is_long : Bool
  pub size : ℕ
  pub limit_price : ℕ
  pub reduce_only : Bool
  pub nonce : ℕ
  pub expiry_ts : ℕ

-- The variables `nonceCounter` and `lastNonce` of the module.
pub record NonceState : Type 0 where
  pub nonce_counter : ℕ
  pub last_nonce : ℕ

abbrev pub new_session : NonceState
new_session = record { nonce_counter = 0; last_nonce = 0 }

-- `now` is what `Date.now()` reads, in milliseconds.
unfoldable pub next_order_nonce : ℕ → NonceState → ℕ × NonceState
next_order_nonce now s =
    let candidate = now * 1000 + s.nonce_counter % 1000 in
    let nonce = if ltb s.last_nonce candidate then candidate else s.last_nonce + 1 in
    (nonce, record { nonce_counter = suc s.nonce_counter; last_nonce = nonce })

-- The parameters of `buildOrderIntent`.
pub record IntentParams : Type 0 where
  pub owner : String
  pub market_id : ℕ
  pub is_long : Bool
  pub size : ℕ
  pub limit_price : ℕ
  pub reduce_only : Option Bool
  pub ttl_seconds : Option ℕ

unfoldable pub build_order_intent : ℕ → IntentParams → NonceState → OrderIntent × NonceState
unfolding next_order_nonce
build_order_intent now params s =
    let (nonce, s') = next_order_nonce now s in
    (
      record {
        owner = params.owner;
        market_id = params.market_id;
        is_long = params.is_long;
        size = params.size;
        limit_price = params.limit_price;
        reduce_only = elim params.reduce_only [ none ↦ false | some b ↦ b ];
        nonce = nonce;
        expiry_ts = now / 1000 + elim params.ttl_seconds [ none ↦ 300 | some t ↦ t ];
      },
      s',
    )

-- The fields of the object are texts there; they are the decimals of these numbers.
unfoldable pub order_intent_to_json : OrderIntent → OrderPayload
order_intent_to_json o = record {
  owner = o.owner;
  market_id = o.market_id;
  is_long = o.is_long;
  size = o.size;
  limit_price = o.limit_price;
  reduce_only = o.reduce_only;
  nonce = o.nonce;
  expiry_ts = o.expiry_ts;
}

-- The intents that a session builds, each with what the clock reads then.
unfoldable pub session : List (ℕ × IntentParams) → NonceState → List OrderIntent
session [] s = []
session ((now, params) ∷ rest) s =
    let (o, s') = build_order_intent now params s in o ∷ session rest s'

-- Each intent has a greater nonce than those before it.
abbrev pub Rising : ℕ → List OrderIntent → Type 0
Rising low [] = Unit {0}
Rising low (o ∷ os) = (low < o.nonce) × Rising o.nonce os

-- The nonces of a session rise from one intent to the next, beyond the last nonce before it, whatever
-- the clock reads: also when it stands still or goes back.
pub session-Rising :
    (orders : List (ℕ × IntentParams)) (s : NonceState) → Rising s.last_nonce (session orders s)
unfolding session build_order_intent next_order_nonce
session-Rising [] s = tt
session-Rising ((now, params) ∷ rest) s =
    (ground arith, session-Rising rest (next_order_nonce now s).1)
