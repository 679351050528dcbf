-- ===== src/Database/Orders.antt =====
-- The guarded updates of the column `filledSize`, and the invariant that they keep.
use kryon.Common.{
  ℕ, ◌+◌, ◌-◌, ◌≤◌, String, Bool, ◌&&◌, leb, str_eq, arith, any, update_where, All,
  All-update_where,
}
use kryon.Database.{OrderRow, Db}

unfoldable pub with_filled : ℕ → OrderRow → OrderRow
with_filled n r = record r { order = record r.order { filled_size = n } }

-- `WHERE id = … AND "filledSize" + n <= size`
unfoldable pub has_room : String → ℕ → OrderRow → Bool
has_room id n r = str_eq r.id id && leb (r.filled_size + n) r.size

-- `SET "filledSize" = "filledSize" + n … RETURNING id`, whether a row came back
unfoldable pub raise_filled : String → ℕ → Db → Bool × Db
unfolding with_filled
raise_filled id n db = (
  any (has_room id n) db.orders,
  record db {
    orders = update_where (has_room id n) (λ r. with_filled (r.filled_size + n) r) db.orders;
  },
)

-- `SET "filledSize" = GREATEST(0, "filledSize" - n) WHERE id = …`
unfoldable pub lower_filled : String → ℕ → Db → Unit {0} × Db
unfolding with_filled
lower_filled id n db = (
  tt,
  record db {
    orders = update_where (λ r. str_eq r.id id) (λ r. with_filled (r.filled_size - n) r) db.orders;
  },
)

-- No order is filled beyond its size.
abbrev pub IsWithin : Db → Type 0
IsWithin db = All (λ r. r.filled_size ≤ r.size) db.orders

pub raise_filled-IsWithin :
    (id : String) (n : ℕ) (db : Db) → IsWithin db → IsWithin (raise_filled id n db).1
unfolding raise_filled has_room
raise_filled-IsWithin id n db =
    All-update_where (λ r. r.filled_size ≤ r.size) (has_room id n)
      (λ r. with_filled (r.filled_size + n) r) (λ r e h. ground arith) db.orders

pub lower_filled-IsWithin :
    (id : String) (n : ℕ) (db : Db) → IsWithin db → IsWithin (lower_filled id n db).1
unfolding lower_filled
lower_filled-IsWithin id n db =
    All-update_where (λ r. r.filled_size ≤ r.size) (λ r. str_eq r.id id)
      (λ r. with_filled (r.filled_size - n) r) (λ r e h. omega arith) db.orders
