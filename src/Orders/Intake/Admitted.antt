-- ===== src/Orders/Intake/Admitted.antt =====
-- What a request to place an order, of client/app/api/orders/route.ts, does to the table of orders.
use kryon.Common.{
  ℕ, ◌≡◌, refl, String, false, not, ◌⊎◌, inl, inr, Option, none, some, List, [], ◌∷◌, ◌++◌, str_eq,
  eq_iff, arith, any, In, All, All-intro, All-append, All-at, In-append_left, Bool-cases,
}
use kryon.Database.{Db, OrderRow}
use kryon.Database.Exec.{
  World, Keeps, Keeps-sql, Keeps-sql_at, Keeps-if, Keeps-bind, Keeps-pure, Keeps-call,
  Keeps-try_catch,
}
use kryon.Signing.{OrderPayload}
use kryon.Http.{
  Request, Value, Json, null_body, scalar, object, as_text, body_too_large, request_key,
}
use kryon.Http.Limit.{Keeps-rate_limit}
use kryon.Orders.{RouteConfig, read_clock, Keeps-with_retry}
use kryon.Orders.Validation.{ValidationResult, valid, invalid, validate_order_intent}
use kryon.Orders.Validation.Accepted.{IsAdmissible, validate_order_intent-IsAdmissible}
use kryon.Orders.Intake.{
  insert_account, order_id, new_order, insert_order, store_order, store_result, claimed_owner,
  signature_of, post_body, orders_post,
}

-- What the two statements keep, the second for an order that the validation accepts, the route keeps.
module _ (c : RouteConfig) (req : Request) (P : Db → Type 0)
    (account : (owner : String) (db : Db) → P db → P (insert_account owner db).1)
    (insert : (o : OrderPayload) (signature : String) (checked : ℕ)
      → IsAdmissible c.validation checked c.passphrase signature o
      → (now : ℕ) (db : Db) → P db
      → P (insert_order o (some signature) now db).1) where
  Keeps-store_result :
      (now : ℕ) (b : String → Value) (result : ValidationResult)
      → validate_order_intent c.validation now c.passphrase (object b) ≡ result
      → Keeps P (store_result (as_text (b "signature")) result)
  unfolding store_order
  Keeps-store_result now b (invalid e) h = Keeps-pure _
  Keeps-store_result now b (valid o) h =
      let (signature, given, good) =
        validate_order_intent-IsAdmissible c.validation now c.passphrase b o h in
      rw given (
        Keeps-try_catch _ _
          (Keeps-bind _ _
            (Keeps-with_retry _ 3 (
              Keeps-bind _ _ (Keeps-sql (insert_account o.owner) (account o.owner)) (λ _.
                Keeps-sql_at (insert_order o (some signature)) (insert o signature now good))))
            (λ _. Keeps-pure _))
          (λ _. Keeps-pure _))

  Keeps-validated :
      (now : ℕ) (body : Json)
      → Keeps P (
          store_result
            (signature_of body)
            (validate_order_intent c.validation now c.passphrase body))
  unfolding validate_order_intent
  Keeps-validated now null_body = Keeps-pure _
  Keeps-validated now scalar = Keeps-pure _
  Keeps-validated now (object b) = Keeps-store_result now b _ refl

  Keeps-post_body : (body : Option Json) → Keeps P (post_body c req body)
  unfolding read_clock
  Keeps-post_body none = Keeps-pure _
  Keeps-post_body (some body) =
      Keeps-bind _ _ (Keeps-rate_limit (request_key req (claimed_owner body)) 30 c.limiter) λ free.
        Keeps-if (not free) _ _ (Keeps-pure _)
          (Keeps-bind _ _ (Keeps-call _) (λ now. Keeps-validated now body))

  Keeps-orders_post : Keeps P (orders_post c req)
  unfolding orders_post
  Keeps-orders_post =
      Keeps-if (body_too_large req 4096) _ _ (Keeps-pure _) (Keeps-post_body req.body)

-- The statement for the account changes no order.
insert_account-orders : (owner : String) (db : Db) → (insert_account owner db).1.orders ≡ db.orders
unfolding insert_account
insert_account-orders owner db = elim (Bool-cases (any (λ a. str_eq a owner) db.accounts)) [
  | inl e ↦ rw e
  | inr e ↦ rw e
]

-- A row of the table that the intake wrote: of an order that it accepted at some time, with its signature.
abbrev pub IsAdmitted : RouteConfig → OrderRow → Type 0
IsAdmitted c r =
    (o : OrderPayload) × (signature : String) × (now : ℕ) × (created : ℕ) × IsAdmissible
      c.validation now c.passphrase signature o
    × (r ≡ new_order o (some signature) created)

-- The rows of `old` are all there, and the other rows are admitted.
abbrev pub GrowsAdmitted : RouteConfig → List OrderRow → List OrderRow → Type 0
GrowsAdmitted c old rows = All (λ r. In r rows) old × All (λ r. In r old ⊎ IsAdmitted c r) rows

insert_order-GrowsAdmitted :
    (c : RouteConfig) (old : List OrderRow) (o : OrderPayload) (signature : String) (checked : ℕ)
    → IsAdmissible c.validation checked c.passphrase signature o
    → (now : ℕ) (db : Db) → GrowsAdmitted c old db.orders
    → GrowsAdmitted c old (insert_order o (some signature) now db).1.orders
unfolding insert_order
insert_order-GrowsAdmitted c old o signature checked good now db (stay, h) =
    elim (Bool-cases (any (λ r. str_eq r.id (order_id o)) db.orders)) [
      | inl e ↦ rw e (stay, h)
      | inr e ↦ rw e (
        All-intro (λ r. In r (db.orders ++ new_order o (some signature) now ∷ [])) old
            (λ r m. In-append_left r db.orders _ (All-at (λ q. In q db.orders) r old stay m)),
        All-append (λ r. In r old ⊎ IsAdmitted c r) db.orders _ h
            (inr (o, signature, checked, now, good, refl), tt),
      )
    ]

-- A request to place an order keeps every order of before as it was, also where the new one has the owner and
-- the nonce of an old one, and a row that it adds is of an order that the validation accepts, unfilled and
-- not cancelled, whichever statements throw.
pub orders_post-GrowsAdmitted :
    (c : RouteConfig) (req : Request) (w : World)
    → GrowsAdmitted c w.db.orders (orders_post c req w).1.db.orders
orders_post-GrowsAdmitted c req w =
    (Keeps-orders_post c req (λ db. GrowsAdmitted c w.db.orders db.orders)
        (λ owner db h. rw (insert_account-orders owner db) h)
        (insert_order-GrowsAdmitted c w.db.orders)).at
      w (All-intro _ w.db.orders (λ r m. m), All-intro _ w.db.orders (λ r m. inl m))

-- No two rows have the same id.
abbrev pub HasDistinctIds : List OrderRow → Type 0
HasDistinctIds [] = Unit {0}
HasDistinctIds (r ∷ rs) = All (λ q. str_eq q.id r.id ≡ false) rs × HasDistinctIds rs

append-HasDistinctIds :
    (rows : List OrderRow) (r : OrderRow)
    → HasDistinctIds rows
    → any (λ q. str_eq q.id r.id) rows ≡ false
    → HasDistinctIds (rows ++ r ∷ [])
unfolding any
append-HasDistinctIds [] r h e = (tt, tt)
append-HasDistinctIds (q ∷ rows) r (h, hs) e =
    let other : str_eq r.id q.id ≡ false = grind (arith, eq_iff, e) in
    let rest : any (λ q. str_eq q.id r.id) rows ≡ false = grind (arith, e) in
    (
      All-append (λ p. str_eq p.id q.id ≡ false) rows _ h (other, tt),
      append-HasDistinctIds rows r hs rest,
    )

insert_order-HasDistinctIds :
    (o : OrderPayload) (signature : Option String) (now : ℕ) (db : Db)
    → HasDistinctIds db.orders
    → HasDistinctIds (insert_order o signature now db).1.orders
unfolding insert_order new_order
insert_order-HasDistinctIds o signature now db h =
    elim (Bool-cases (any (λ r. str_eq r.id (order_id o)) db.orders)) [
      | inl e ↦ rw e h
      | inr e ↦ rw e (append-HasDistinctIds db.orders (new_order o signature now) h e)
    ]

-- When no two orders of the table have the same id, a request to place one leaves it so, whichever
-- statements throw.
pub orders_post-HasDistinctIds :
    (c : RouteConfig) (req : Request) (w : World)
    → HasDistinctIds w.db.orders
    → HasDistinctIds (orders_post c req w).1.db.orders
orders_post-HasDistinctIds c req w h =
    (Keeps-orders_post c req (λ db. HasDistinctIds db.orders)
        (λ owner db k. rw (insert_account-orders owner db) k)
        (λ o signature checked good now db k.
          insert_order-HasDistinctIds o (some signature) now db k)).at
      w h
