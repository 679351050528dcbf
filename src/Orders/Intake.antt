-- ===== src/Orders/Intake.antt =====
-- client/app/api/orders/route.ts, the handler of POST
pub mod Admitted
use kryon.Common.{
  ℕ, zero, suc, ◌*◌, ◌≡◌, refl, String, ◌<>◌, false, not, ◌⊎◌, inl, inr, Option, none, some, List,
  [], ◌∷◌, ◌++◌, str_eq, if◌then◌else◌, any, In, All, All-intro, All-append, All-at, In-append_left,
  to_decimal, Bool-cases,
}
use kryon.Database.{Db, OrderRow}
use kryon.Database.Exec.{
  World, Exec, Keeps, pure, sql, sql_at, try_catch, ◌>>=◌, ◌>>◌, Keeps-sql, Keeps-sql_at, Keeps-if,
  Keeps-bind, Keeps-pure, Keeps-call, Keeps-try_catch,
}
use kryon.Signing.{OrderPayload}
use kryon.Http.{
  Request, Response, Value, Json, null_body, scalar, object, refuse, answer, as_text,
  body_too_large, request_key,
}
use kryon.Http.Limit.{rate_limit, Keeps-rate_limit}
use kryon.Orders.{RouteConfig, read_clock, with_retry, Keeps-with_retry}
use kryon.Orders.Validation.{ValidationResult, valid, invalid, validate_order_intent}
use kryon.Orders.Validation.Accepted.{IsAdmissible, validate_order_intent-IsAdmissible}

-- `INSERT INTO "Account" … ON CONFLICT (address) DO NOTHING`
unfoldable pub insert_account : String → Db → Unit {0} × Db
insert_account owner db =
    if any (λ a. str_eq a owner) db.accounts
    then (tt, db)
    else (tt, record db { accounts = db.accounts ++ owner ∷ [] })

unfoldable pub order_id : OrderPayload → String
order_id o = o.owner <> ":" <> to_decimal o.nonce

-- The clock of a route has whole seconds, so the milliseconds of `NOW()` are left out.
unfoldable pub new_order : OrderPayload → Option String → ℕ → OrderRow
unfolding order_id
new_order o signature now = record {
  order = record {
    id = order_id o;
    owner = o.owner;
    market_id = o.market_id;
    is_long = o.is_long;
    size = o.size;
    limit_price = o.limit_price;
    reduce_only = o.reduce_only;
    nonce = o.nonce;
    expiry_ts = o.expiry_ts;
    filled_size = 0;
    created_at = now * 1000;
    signature = signature;
  };
  cancelled = false;
}

-- `INSERT INTO "Order" … ON CONFLICT (id) DO NOTHING`
unfoldable pub insert_order : OrderPayload → Option String → ℕ → Db → Unit {0} × Db
unfolding new_order
insert_order o signature now db =
    if any (λ r. str_eq r.id (order_id o)) db.orders
    then (tt, db)
    else (tt, record db { orders = db.orders ++ new_order o signature now ∷ [] })

unfoldable pub store_order : OrderPayload → Option String → Exec Response
store_order o signature =
    try_catch
      (with_retry (sql (insert_account o.owner) >> sql_at (insert_order o signature)) 3
        >> pure (answer ""))
      (λ e. pure (refuse 500 "Failed to persist order"))

abbrev pub store_result : Option String → ValidationResult → Exec Response
store_result signature (invalid e) = pure (refuse 400 e)
store_result signature (valid o) = store_order o signature

-- `slice(0, n)`
slice : ℕ → String → String
slice zero s = String.[]
slice (suc n) String.[] = String.[]
slice (suc n) (String.◌∷◌ c s) = String.◌∷◌ c (slice n s)

abbrev owner_text : Option String → String
owner_text none = "invalid"
owner_text (some s) = slice 64 s

unfoldable pub claimed_owner : Json → String
unfolding slice
claimed_owner null_body = "invalid"
claimed_owner scalar = "invalid"
claimed_owner (object b) = owner_text (as_text (b "owner"))

abbrev pub signature_of : Json → Option String
signature_of null_body = none
signature_of scalar = none
signature_of (object b) = as_text (b "signature")

abbrev pub post_body : RouteConfig → Request → Option Json → Exec Response
post_body c req none = pure (refuse 400 "Invalid JSON body")
post_body c req (some body) =
    rate_limit c.limiter (request_key req (claimed_owner body)) 30 >>= λ free.
    if not free
    then pure (refuse 429 "Too many order requests")
    else read_clock >>= λ now.
        store_result (signature_of body) (validate_order_intent c.validation now c.passphrase body)

unfoldable pub orders_post : RouteConfig → Request → Exec Response
orders_post c req =
    if body_too_large req 4096 then pure (refuse 413 "Body too large") else post_body c req req.body
