-- ===== src/Orders/CancelAll.antt =====
-- client/app/api/orders/cancel-all/route.ts
use kryon.Common.{
  ℕ, ◌+◌, ◌-◌, ◌<◌, ◌≡◌, String, Bool, true, false, not, ◌&&◌, inl, Option, none, some, List, map,
  keep, ltb, ◌==◌, str_eq, if◌then◌else◌, update_where, All-intro, arith, eq_iff,
}
use kryon.Common.Int.{ℤ, pos, negsuc}
use kryon.Database.{Db, OrderRow}
use kryon.Database.Exec.{
  World, Exec, Keeps, pure, throw, sql, try_catch, ◌>>=◌, Keeps-sql, Keeps-if, Keeps-if_eq,
  Keeps-bind, Keeps-pure, Keeps-throw, Keeps-try_catch, Keeps-call,
}
use kryon.Signing.{
  Scope, every_market, one_market, cancel_all_signing_message, cancel_all_window_seconds,
}
use kryon.Http.{
  Request, Response, Value, Json, null_body, scalar, object, missing, null, boolean, number, text,
  other, refuse, answer, as_text, string_of, body_too_large, request_key,
}
use kryon.Http.Text.{parse_digits}
use kryon.Http.Limit.{rate_limit, Keeps-rate_limit}
use kryon.Orders.{RouteConfig, read_clock, with_retry, Keeps-with_retry}
use kryon.Orders.Cancel.{cancelled_row, short_text, AreCancelledBy, AreCancelledBy-update}

unfoldable pub in_scope : Scope → OrderRow → Bool
in_scope every_market r = true
in_scope (one_market id) r = r.market_id == id

-- `RETURNING nonce` and `WHERE owner = … AND cancelled = false AND "expiryTs" > now AND "filledSize" < size`, in a market or all
unfoldable pub is_live : String → Scope → ℕ → OrderRow → Bool
unfolding in_scope
is_live owner scope now r =
    str_eq r.owner owner
    && in_scope scope r
    && not r.cancelled
    && ltb now r.expiry_ts
    && ltb r.filled_size r.size

unfoldable pub cancel_live : String → Scope → ℕ → Db → List ℕ × Db
unfolding is_live
cancel_live owner scope now db = (
  map (λ r. r.nonce) (keep (is_live owner scope now) db.orders),
  record db { orders = update_where (is_live owner scope now) cancelled_row db.orders },
)

-- The scope that `market_id` names, by the integer that `Number` makes of it
abbrev market_scope : Option ℤ → Option Scope
market_scope none = none
market_scope (some (negsuc n)) = none
market_scope (some (pos n)) = if n == 0 then none else some (one_market n)

unfoldable pub scope_of : (Value → Option ℤ) → Value → Option Scope
scope_of integer_of missing = some every_market
scope_of integer_of null = some every_market
scope_of integer_of (text s) =
    if str_eq s "all" then some every_market else market_scope (integer_of (text s))
scope_of integer_of (boolean b) = market_scope (integer_of (boolean b))
scope_of integer_of (number s) = market_scope (integer_of (number s))
scope_of integer_of (other s) = market_scope (integer_of (other s))

-- `Math.abs(nowSec - issuedAt) > CANCEL_ALL_WINDOW_SECONDS`
unfoldable pub is_outside_window : ℕ → ℕ → Bool
is_outside_window now issued_at =
    ltb cancel_all_window_seconds ((now - issued_at) + (issued_at - now))

-- The rest of the route for a signature of the right form, issued in time.
unfoldable pub cancel_all_signed :
    RouteConfig → String → Scope → ℕ → String → String → Exec Response
cancel_all_signed c owner scope now issued_at signature =
    let message = cancel_all_signing_message owner issued_at scope c.passphrase in
    if not (c.validation.verify_signed_message owner message signature)
    then pure (refuse 401 "Invalid cancel signature")
    else try_catch
        (with_retry (sql (cancel_live owner scope now)) 3 >>= λ nonces.
          pure (record (answer "") { nonces = nonces }))
        (λ e. pure (refuse 500 "Failed to cancel orders"))

abbrev all_with : RouteConfig → String → Scope → ℕ → String → Option String → Exec Response
all_with c owner scope now issued_at none = pure (refuse 400 "Missing cancel signature")
all_with c owner scope now issued_at (some signature) =
    cancel_all_signed c owner scope now issued_at signature

abbrev all_issued : RouteConfig → (String → Value) → String → Scope → ℕ → Option ℕ → Exec Response
all_issued c b owner scope now none = pure (refuse 400 "Invalid issued_at")
all_issued c b owner scope now (some issued) =
    if is_outside_window now issued
    then pure
        (refuse 400 "issued_at is outside the 60s window; check your clock against GET /api/time")
    else all_with c owner scope now (string_of (b "issued_at"))
        (short_text (as_text (b "signature")))

abbrev all_scoped : RouteConfig → (String → Value) → String → Option Scope → Exec Response
all_scoped c b owner none = pure (refuse 400 "Invalid market_id")
all_scoped c b owner (some scope) =
    read_clock >>= λ now. all_issued c b owner scope now (parse_digits (string_of (b "issued_at")))

abbrev all_of : RouteConfig → Request → (String → Value) → Option String → Exec Response
all_of c req b none = pure (refuse 400 "Invalid owner address")
all_of c req b (some owner) =
    if not (c.validation.is_valid_public_key owner)
    then pure (refuse 400 "Invalid owner address")
    else rate_limit c.limiter (request_key req owner) 30 >>= λ free.
        if not free
        then pure (refuse 429 "Too many cancel-all requests")
        else all_scoped c b owner (scope_of c.validation.integer_of (b "market_id"))

-- Reading a field of `null` throws, outside any `try`.
abbrev all_body : RouteConfig → Request → Option Json → Exec Response
all_body c req none = pure (refuse 400 "Invalid JSON body")
all_body c req (some null_body) = throw "TypeError"
all_body c req (some scalar) = all_of c req (λ field. missing) none
all_body c req (some (object b)) = all_of c req b (as_text (b "owner"))

unfoldable pub cancel_all_post : RouteConfig → Request → Exec Response
cancel_all_post c req =
    if body_too_large req 4096 then pure (refuse 413 "Body too large") else all_body c req req.body

-- The owner of an order has signed a message that cancels in a scope with the order, which is not cancelled
-- yet and has something left to fill.
abbrev pub IsAllSigned : RouteConfig → OrderRow → Type 0
IsAllSigned c r =
    (r.cancelled ≡ false)
    × (r.filled_size < r.size)
    × ((signature : String) × (issued_at : String) × (scope : Scope) × (in_scope scope r ≡ true)
        × (c.validation.verify_signed_message r.owner
              (cancel_all_signing_message r.owner issued_at scope c.passphrase) signature
            ≡ true))

signed_row :
    (c : RouteConfig) (owner issued_at : String) (scope : Scope) (now : ℕ) (signature : String)
    (r : OrderRow)
    → not (
        c.validation.verify_signed_message owner
          (cancel_all_signing_message owner issued_at scope c.passphrase)
          signature)
      ≡ false
    → is_live owner scope now r ≡ true
    → IsAllSigned c r
unfolding is_live
signed_row c owner issued_at scope now signature r e f =
    let same : r.owner ≡ owner = grind (arith, eq_iff, f) in
    let inside : in_scope scope r ≡ true = grind (arith, f) in
    let live : r.cancelled ≡ false = grind (arith, f) in
    let open_size : r.filled_size < r.size = grind (arith, f) in
    let verified : c.validation.verify_signed_message r.owner
          (cancel_all_signing_message r.owner issued_at scope c.passphrase) signature
        ≡ true =
      rw same (grind (arith, e)) in
    (live, open_size, (signature, issued_at, scope, inside, verified))

module _ (c : RouteConfig) (req : Request) (old : List OrderRow) where
  abbrev P : Db → Type 0
  P = AreCancelledBy (IsAllSigned c) old

  Keeps-cancel_all_signed :
      (owner : String) (scope : Scope) (now : ℕ) (issued_at signature : String)
      → Keeps P (cancel_all_signed c owner scope now issued_at signature)
  unfolding cancel_all_signed cancel_live
  Keeps-cancel_all_signed owner scope now issued_at signature =
      let message = cancel_all_signing_message owner issued_at scope c.passphrase in
      Keeps-if_eq (not (c.validation.verify_signed_message owner message signature)) _ _
        (λ _. Keeps-pure _)
        λ e.
          Keeps-try_catch _ _
            (Keeps-bind _ _
              (Keeps-with_retry _ 3 (
                Keeps-sql (cancel_live owner scope now) (
                  AreCancelledBy-update (IsAllSigned c) old (is_live owner scope now)
                    (λ r f. signed_row c owner issued_at scope now signature r e f))))
              (λ _. Keeps-pure _))
            (λ _. Keeps-pure _)

  Keeps-all_with :
      (owner : String) (scope : Scope) (now : ℕ) (issued_at : String) (s : Option String)
      → Keeps P (all_with c owner scope now issued_at s)
  Keeps-all_with owner scope now issued_at none = Keeps-pure _
  Keeps-all_with owner scope now issued_at (some s) =
      Keeps-cancel_all_signed owner scope now issued_at s

  Keeps-all_issued :
      (b : String → Value) (owner : String) (scope : Scope) (now : ℕ) (n : Option ℕ)
      → Keeps P (all_issued c b owner scope now n)
  Keeps-all_issued b owner scope now none = Keeps-pure _
  Keeps-all_issued b owner scope now (some n) =
      Keeps-if (is_outside_window now n) _ _ (Keeps-pure _) (Keeps-all_with owner scope now _ _)

  Keeps-all_scoped :
      (b : String → Value) (owner : String) (s : Option Scope) → Keeps P (all_scoped c b owner s)
  unfolding read_clock
  Keeps-all_scoped b owner none = Keeps-pure _
  Keeps-all_scoped b owner (some scope) =
      Keeps-bind _ _ (Keeps-call _) (λ now. Keeps-all_issued b owner scope now _)

  Keeps-all_of : (b : String → Value) (owner : Option String) → Keeps P (all_of c req b owner)
  Keeps-all_of b none = Keeps-pure _
  Keeps-all_of b (some owner) =
      Keeps-if (not (c.validation.is_valid_public_key owner)) _ _ (Keeps-pure _) (
        Keeps-bind _ _ (Keeps-rate_limit (request_key req owner) 30 c.limiter)
          λ free. Keeps-if (not free) _ _ (Keeps-pure _) (Keeps-all_scoped b owner _))

  Keeps-all_body : (body : Option Json) → Keeps P (all_body c req body)
  Keeps-all_body none = Keeps-pure _
  Keeps-all_body (some null_body) = Keeps-throw "TypeError"
  Keeps-all_body (some scalar) = Keeps-all_of (λ field. missing) none
  Keeps-all_body (some (object b)) = Keeps-all_of b (as_text (b "owner"))

-- Every order after a request to cancel all is as before it, or it is an order of before that is now
-- cancelled, that was neither cancelled nor filled, and whose owner signed a message that cancels in its
-- market or in all, whichever statements throw.
pub cancel_all_post-AreCancelledBy :
    (c : RouteConfig) (req : Request) (w : World)
    → AreCancelledBy (IsAllSigned c) w.db.orders (cancel_all_post c req w).1.db
unfolding cancel_all_post
cancel_all_post-AreCancelledBy c req w =
    let k : Keeps (AreCancelledBy (IsAllSigned c) w.db.orders) (cancel_all_post c req) =
      Keeps-if (body_too_large req 4096) _ _ (Keeps-pure _)
        (Keeps-all_body c req w.db.orders req.body) in
    k.at w (All-intro _ w.db.orders (λ r m. inl m))
