-- ===== src/Orders/Cancel.antt =====
-- client/app/api/orders/cancel/route.ts
use kryon.Common.{
  ℕ, ◌≡◌, refl, String, Bool, true, false, not, ◌&&◌, ◌⊎◌, inl, inr, Option, none, some, List, ltb,
  ◌==◌, str_eq, if◌then◌else◌, update_where, In, All, All-intro, All-update_where, arith, eq_iff,
  ap,
}
use kryon.Database.{Db, OrderRow}
use kryon.Database.Exec.{
  World, Exec, Keeps, pure, throw, sql, try_catch, ◌>>=◌, ◌>>◌, Keeps-sql, Keeps-if, Keeps-if_eq,
  Keeps-bind, Keeps-pure, Keeps-throw, Keeps-try_catch,
}
use kryon.Signing.{cancel_signing_message, assert_u64}
use kryon.Http.{
  Request, Response, Value, Json, null_body, scalar, object, refuse, answer, as_text, string_of,
  body_too_large, request_key, missing,
}
use kryon.Http.Text.{parse_digits, text_length}
use kryon.Http.Limit.{rate_limit, Keeps-rate_limit}
use kryon.Orders.{RouteConfig, with_retry, Keeps-with_retry}

abbrev pub cancelled_row : OrderRow → OrderRow
cancelled_row r = record r { cancelled = true }

unfoldable pub is_owned : String → ℕ → OrderRow → Bool
is_owned owner nonce r = str_eq r.owner owner && r.nonce == nonce

-- `SET cancelled = true WHERE owner = … AND nonce = …`
unfoldable pub cancel_rows : String → ℕ → Db → Unit {0} × Db
unfolding is_owned
cancel_rows owner nonce db =
    (tt, record db { orders = update_where (is_owned owner nonce) cancelled_row db.orders })

-- The rest of the route for an owner, a nonce and a signature that have the right form.
unfoldable pub cancel_signed : RouteConfig → Request → String → ℕ → String → Exec Response
cancel_signed c req owner nonce signature =
    rate_limit c.limiter (request_key req owner) 60 >>= λ free.
    let message = cancel_signing_message owner nonce c.passphrase in
    if not free
    then pure (refuse 429 "Too many cancel requests")
    else if not (c.validation.verify_signed_message owner message signature)
    then pure (refuse 401 "Invalid cancel signature")
    else try_catch (with_retry (sql (cancel_rows owner nonce)) 3 >> pure (answer ""))
        (λ e. pure (refuse 500 "Failed to cancel order"))

abbrev pub short_text : Option String → Option String
short_text none = none
short_text (some s) = if ltb 256 (text_length s) then none else some s

abbrev cancel_with : RouteConfig → Request → String → ℕ → Option String → Exec Response
cancel_with c req owner nonce none = pure (refuse 400 "Missing cancel signature")
cancel_with c req owner nonce (some signature) = cancel_signed c req owner nonce signature

abbrev cancel_nonce : RouteConfig → Request → (String → Value) → String → Option ℕ → Exec Response
cancel_nonce c req b owner none = pure (refuse 400 "Invalid nonce")
cancel_nonce c req b owner (some nonce) =
    if not (assert_u64 nonce)
    then pure (refuse 400 "Invalid nonce")
    else cancel_with c req owner nonce (short_text (as_text (b "signature")))

abbrev cancel_of : RouteConfig → Request → (String → Value) → Option String → Exec Response
cancel_of c req b none = pure (refuse 400 "Invalid owner address")
cancel_of c req b (some owner) =
    if not (c.validation.is_valid_public_key owner)
    then pure (refuse 400 "Invalid owner address")
    else cancel_nonce c req b owner (parse_digits (string_of (b "nonce")))

-- Reading a field of `null` throws, outside any `try`.
abbrev cancel_body : RouteConfig → Request → Option Json → Exec Response
cancel_body c req none = pure (refuse 400 "Invalid JSON body")
cancel_body c req (some null_body) = throw "TypeError"
cancel_body c req (some scalar) = cancel_of c req (λ field. missing) none
cancel_body c req (some (object b)) = cancel_of c req b (as_text (b "owner"))

unfoldable pub cancel_post : RouteConfig → Request → Exec Response
cancel_post c req =
    if body_too_large req 4096
    then pure (refuse 413 "Body too large")
    else cancel_body c req req.body

-- The owner of an order has signed the message that cancels it.
abbrev pub IsCancelSigned : RouteConfig → OrderRow → Type 0
IsCancelSigned c r =
    (signature : String) × (c.validation.verify_signed_message r.owner
        (cancel_signing_message r.owner r.nonce c.passphrase) signature
      ≡ true)

-- Rows of `old`, some of them cancelled where `Allowed` permits it
abbrev pub AreCancelledBy : (OrderRow → Type 0) → List OrderRow → Db → Type 0
AreCancelledBy Allowed old db =
    All (λ r. In r old ⊎ ((q : OrderRow) × In q old × (r ≡ cancelled_row q) × Allowed q)) db.orders

pub AreCancelledBy-update :
    (Allowed : OrderRow → Type 0) (old : List OrderRow) (p : OrderRow → Bool)
    → ((r : OrderRow) → p r ≡ true → Allowed r)
    → (db : Db) → AreCancelledBy Allowed old db
    → AreCancelledBy Allowed old (record db { orders = update_where p cancelled_row db.orders })
AreCancelledBy-update Allowed old p ok db =
    All-update_where
      (λ r. In r old ⊎ ((q : OrderRow) × In q old × (r ≡ cancelled_row q) × Allowed q)) p
      cancelled_row
      (λ r e h. elim h [
        | inl m ↦ inr (r, m, refl, ok r e)
        | inr (q, m, same, a) ↦ inr (q, m, ap cancelled_row same, a)
      ])
      db.orders

signed_row :
    (c : RouteConfig) (owner : String) (nonce : ℕ) (signature : String) (r : OrderRow)
    → not (
        c.validation.verify_signed_message owner
          (cancel_signing_message owner nonce c.passphrase)
          signature)
      ≡ false
    → is_owned owner nonce r ≡ true
    → c.validation.verify_signed_message r.owner
        (cancel_signing_message r.owner r.nonce c.passphrase)
        signature
      ≡ true
unfolding is_owned
signed_row c owner nonce signature r e f =
    let same_owner : r.owner ≡ owner = grind (arith, eq_iff, f) in
    let same_nonce : r.nonce ≡ nonce = grind (arith, f) in
    rw (same_owner, same_nonce) (grind (arith, e))

module _ (c : RouteConfig) (req : Request) (old : List OrderRow) where
  abbrev P : Db → Type 0
  P = AreCancelledBy (IsCancelSigned c) old

  Keeps-cancel_signed :
      (owner : String) (nonce : ℕ) (signature : String)
      → Keeps P (cancel_signed c req owner nonce signature)
  unfolding cancel_signed cancel_rows is_owned
  Keeps-cancel_signed owner nonce signature =
      let message = cancel_signing_message owner nonce c.passphrase in
      Keeps-bind _ _ (Keeps-rate_limit (request_key req owner) 60 c.limiter) λ free.
        Keeps-if (not free) _ _ (Keeps-pure _) (
          Keeps-if_eq (not (c.validation.verify_signed_message owner message signature)) _ _
            (λ _. Keeps-pure _)
            (λ e.
              Keeps-try_catch _ _
                (Keeps-bind _ _
                  (Keeps-with_retry _ 3 (
                    Keeps-sql (cancel_rows owner nonce) (
                      AreCancelledBy-update (IsCancelSigned c) old (is_owned owner nonce)
                        (λ r f. (signature, signed_row c owner nonce signature r e f)))))
                  (λ _. Keeps-pure _))
                (λ _. Keeps-pure _)))

  Keeps-cancel_with :
      (owner : String) (nonce : ℕ) (s : Option String) → Keeps P (cancel_with c req owner nonce s)
  Keeps-cancel_with owner nonce none = Keeps-pure _
  Keeps-cancel_with owner nonce (some s) = Keeps-cancel_signed owner nonce s

  Keeps-cancel_nonce :
      (b : String → Value) (owner : String) (n : Option ℕ) → Keeps P (cancel_nonce c req b owner n)
  Keeps-cancel_nonce b owner none = Keeps-pure _
  Keeps-cancel_nonce b owner (some n) =
      Keeps-if (not (assert_u64 n)) _ _ (Keeps-pure _) (Keeps-cancel_with owner n _)

  Keeps-cancel_of : (b : String → Value) (owner : Option String) → Keeps P (cancel_of c req b owner)
  Keeps-cancel_of b none = Keeps-pure _
  Keeps-cancel_of b (some owner) =
      Keeps-if (not (c.validation.is_valid_public_key owner)) _ _ (Keeps-pure _)
        (Keeps-cancel_nonce b owner _)

  Keeps-cancel_body : (body : Option Json) → Keeps P (cancel_body c req body)
  Keeps-cancel_body none = Keeps-pure _
  Keeps-cancel_body (some null_body) = Keeps-throw "TypeError"
  Keeps-cancel_body (some scalar) = Keeps-cancel_of (λ field. missing) none
  Keeps-cancel_body (some (object b)) = Keeps-cancel_of b (as_text (b "owner"))

-- Every order after a request to cancel is as before it, or it is an order of before that is now
-- cancelled and whose owner signed the message that cancels it, whichever statements throw.
pub cancel_post-AreCancelledBy :
    (c : RouteConfig) (req : Request) (w : World)
    → AreCancelledBy (IsCancelSigned c) w.db.orders (cancel_post c req w).1.db
unfolding cancel_post
cancel_post-AreCancelledBy c req w =
    let k : Keeps (AreCancelledBy (IsCancelSigned c) w.db.orders) (cancel_post c req) =
      Keeps-if (body_too_large req 4096) _ _ (Keeps-pure _)
        (Keeps-cancel_body c req w.db.orders req.body) in
    k.at w (All-intro _ w.db.orders (λ r m. inl m))
