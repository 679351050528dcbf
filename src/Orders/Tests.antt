-- ===== src/Orders/Tests.antt =====
-- One trader, who places an order and cancels it.
use kryon.Common.{
  String, true, false, none, some, [], ◌∷◌, ◌≡◌, refl, ◌≤◌, arith, str_eq, if◌then◌else◌, any,
}
use kryon.Common.Int.{pos}
use kryon.Matcher.Tests.{tables, limits}
use kryon.Matcher.Fills.RoundTrip.{calm}
use kryon.Database.Exec.{World, ok}
use kryon.Signing.{OrderPayload, assert_u64}
use kryon.Http.{Json, Value, text, boolean, missing, number, object, Request, as_text}
use kryon.Http.Text.{trim, parse_signed, digits_value, text_length}
use kryon.Orders.{RouteConfig}
use kryon.Orders.Submit.{ClientConfig, of_answer, submit_order}
use kryon.Orders.Submit.Accepted.{submit_order-accepted}
use kryon.Orders.Nonce.{
  OrderIntent, order_intent_to_json, IntentParams, session, new_session, Rising, session-Rising,
}
use kryon.Orders.Validation.{
  ValidationConfig, valid, validate_order_intent, validate_fields, after_owner, after_market,
  after_is_long, after_reduce_only, size_bound, price_bound, after_price, after_nonce, need,
  at_most, check_expiry, check_signature, parse_big_int,
}
use kryon.Orders.Validation.Accepted.{IsAdmissible, validate_order_intent-IsAdmissible}
use kryon.Orders.Intake.{orders_post}
use kryon.Orders.Intake.Admitted.{orders_post-GrowsAdmitted, GrowsAdmitted}
use kryon.Orders.Cancel.{cancel_post, cancel_post-AreCancelledBy, AreCancelledBy, IsCancelSigned}
use kryon.Orders.CancelAll.{cancel_all_post, cancel_all_post-AreCancelledBy, IsAllSigned}

abbrev params : IntentParams
params = record {
  owner = "a";
  market_id = 1;
  is_long = true;
  size = 5;
  limit_price = 7;
  reduce_only = none;
  ttl_seconds = none;
}

-- The clock goes back between the two.
session-Rising_example : Rising 0 (session ((5, params) ∷ (4, params) ∷ []) new_session)
session-Rising_example = session-Rising ((5, params) ∷ (4, params) ∷ []) new_session

abbrev validation : ValidationConfig
validation = record {
  valid_market_ids = 1 ∷ 2 ∷ [];
  integer_of = λ v. some (pos 2);
  is_valid_public_key = λ s. true;
  pubkey_hex_from_address = λ s. s;
  verify_signed_message = λ owner message signature. str_eq signature "s";
}

abbrev fields : String → Value
fields f =
    if str_eq f "owner"
    then text "a"
    else if str_eq f "is_long"
    then boolean true
    else if str_eq f "reduce_only"
    then boolean false
    else if str_eq f "size"
    then text " 12 "
    else if str_eq f "limit_price"
    then number "7"
    else if str_eq f "nonce"
    then text "1"
    else if str_eq f "issued_at"
    then text "100"
    else if str_eq f "expiry_ts"
    then text "200"
    else if str_eq f "signature"
    then text "s"
    else missing

abbrev placed : OrderPayload
placed = record {
  owner = "a";
  market_id = 2;
  is_long = true;
  size = 12;
  limit_price = 7;
  reduce_only = false;
  nonce = 1;
  expiry_ts = 200;
}

fields-valid : validate_order_intent validation 100 "Test" (object fields) ≡ valid placed
unfolding validate_order_intent validate_fields after_owner after_market after_is_long
    after_reduce_only size_bound price_bound after_price after_nonce need at_most check_expiry
    check_signature parse_big_int trim parse_signed digits_value text_length assert_u64 any
fields-valid = refl

validate_order_intent-IsAdmissible_example :
    (signature : String) × (as_text (fields "signature") ≡ some signature)
    × IsAdmissible validation 100 "Test" signature placed
validate_order_intent-IsAdmissible_example =
    validate_order_intent-IsAdmissible validation 100 "Test" fields placed fields-valid

abbrev config : RouteConfig
config = record {
  limiter = record { redis = none; production = false };
  validation = validation;
  passphrase = "Test";
}

abbrev request : Request
request = record {
  body = some (object fields);
  content_length = some 300;
  connecting_ip = none;
  forwarded_for = some "1.2.3.4, 5.6.7.8";
  real_ip = none;
}

abbrev before : World
before = calm (tables limits []) 100

orders_post-GrowsAdmitted_example :
    GrowsAdmitted config before.db.orders (orders_post config request before).1.db.orders
orders_post-GrowsAdmitted_example = orders_post-GrowsAdmitted config request before

cancel_post-AreCancelledBy_example :
    AreCancelledBy (IsCancelSigned config) before.db.orders (cancel_post config request before).1.db
cancel_post-AreCancelledBy_example = cancel_post-AreCancelledBy config request before

cancel_all_post-AreCancelledBy_example :
    AreCancelledBy
      (IsAllSigned config)
      before.db.orders
      (cancel_all_post config request before).1.db
cancel_all_post-AreCancelledBy_example = cancel_all_post-AreCancelledBy config request before

-- A client whose wallet signs all with the same letter.
abbrev client : ClientConfig
client = record {
  passphrase = "net";
  freighter_sign_message = λ message owner. ok "s";
  pubkey_hex_from_address = λ s. ok s;
  post_order = λ body. ok (record { is_ok = true; data_ok = none; error = none; status_text = "" });
}

abbrev intent : OrderIntent
intent = record {
  owner = "a";
  market_id = 2;
  is_long = true;
  size = 12;
  limit_price = 7;
  reduce_only = false;
  nonce = 1;
  expiry_ts = 200;
}

intent-IsAdmissible : IsAdmissible validation 100 "net" "s" (order_intent_to_json intent)
unfolding order_intent_to_json any
intent-IsAdmissible = record {
  owner_key = refl;
  market = refl;
  size_low = omega arith;
  size_high = omega arith;
  price_low = omega arith;
  price_high = omega arith;
  nonce_high = omega arith;
  expiry_low = omega arith;
  expiry_high = omega arith;
  signed = refl;
}

short_signature : text_length "s" ≤ 256
unfolding text_length
short_signature = omega arith

submit_order-accepted_example :
    (body : Json) × (submit_order client intent ≡ of_answer (client.post_order body))
    × (validate_order_intent validation 100 "net" body ≡ valid (order_intent_to_json intent))
submit_order-accepted_example =
    submit_order-accepted client validation 100 "s" intent refl refl intent-IsAdmissible
      short_signature (omega arith) refl
