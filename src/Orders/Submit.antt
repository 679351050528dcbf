-- ===== src/Orders/Submit.antt =====
-- `submitOrder` of client/lib/market/matcher.ts: how the client signs an intent and what it sends to the route that
-- takes orders.
pub mod Accepted
use kryon.Common.{
  ℕ, String, Bool, true, false, ◌||◌, not, Option, none, some, str_eq, if◌then◌else◌, to_decimal,
}
use kryon.Database.Exec.{Outcome, ok, thrown}
use kryon.Http.{Value, Json, object, missing, boolean, number, text}
use kryon.Signing.{OrderPayload, order_settlement_message}
use kryon.Orders.Nonce.{OrderIntent, order_intent_to_json}

-- The answer of the route, as far as the client reads it: `res.ok`, `data.ok`, `data.error`, and its text where it
-- has no error.
pub record ApiAnswer : Type 0 where
  pub is_ok : Bool
  pub data_ok : Option Bool
  pub error : Option String
  pub status_text : String

-- The network, the wallet that signs a message for an owner or throws, `pubkeyHexFromAddress`, and the route.
pub record ClientConfig : Type 0 where
  pub passphrase : String
  pub freighter_sign_message : String → String → Outcome String
  pub pubkey_hex_from_address : String → Outcome String
  pub post_order : Json → Outcome ApiAnswer

-- `JSON.stringify` of the payload with its signature, as the route parses it. The numbers of an intent are texts
-- there, but for the market.
unfoldable pub order_fields : OrderPayload → String → String → Value
order_fields o signature f =
    if str_eq f "owner"
    then text o.owner
    else if str_eq f "market_id"
    then number (to_decimal o.market_id)
    else if str_eq f "is_long"
    then boolean o.is_long
    else if str_eq f "size"
    then text (to_decimal o.size)
    else if str_eq f "limit_price"
    then text (to_decimal o.limit_price)
    else if str_eq f "reduce_only"
    then boolean o.reduce_only
    else if str_eq f "nonce"
    then text (to_decimal o.nonce)
    else if str_eq f "expiry_ts"
    then text (to_decimal o.expiry_ts)
    else if str_eq f "signature"
    then text signature
    else missing

abbrev is_false : Option Bool → Bool
is_false none = false
is_false (some b) = not b

abbrev or_status : Option String → String → String
or_status none status = status
or_status (some e) status = e

-- `{ ok: true }`, or the error
pub data Submitted : Type 0 where
  accepted : Submitted
  refused : String → Submitted

abbrev pub of_answer : Outcome ApiAnswer → Submitted
of_answer (thrown e) = refused e
of_answer (ok a) =
    if not a.is_ok || is_false a.data_ok
    then refused (or_status a.error a.status_text)
    else accepted

abbrev of_signature : ClientConfig → OrderPayload → Outcome String → Submitted
of_signature c o (thrown e) = refused e
of_signature c o (ok signature) = of_answer (c.post_order (object (order_fields o signature)))

abbrev of_key : ClientConfig → OrderIntent → Outcome String → Submitted
of_key c o (thrown e) = refused e
of_key c o (ok hex) =
    let payload = order_intent_to_json o in
    of_signature c payload
      (c.freighter_sign_message (order_settlement_message c.passphrase hex payload) o.owner)

unfoldable pub submit_order : ClientConfig → OrderIntent → Submitted
unfolding order_fields order_intent_to_json
submit_order c o = of_key c o (c.pubkey_hex_from_address o.owner)
