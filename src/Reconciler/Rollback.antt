-- ===== src/Reconciler/Rollback.antt =====
-- client/scripts/settlement-reconciler.ts: rollbackFill
use kryon.Common.{
  ℕ, ◌-◌, String, Bool, true, false, ◌&&◌, Option, none, some, ◌==◌, str_eq, if◌then◌else◌,
  update_where,
}
use kryon.Matcher.Fills.{delete_fill}
use kryon.Database.{Db, OrderRow, JobPayload}
use kryon.Database.Orders.{with_filled}
use kryon.Database.Exec.{Exec, pure, sql, ◌>>◌}

-- A text that is missing or empty is falsy.
unfoldable pub truthy : Option String → Option String
truthy none = none
truthy (some s) = if str_eq s "" then none else some s

unfoldable pub present : Option String → Bool
unfolding truthy
present s = elim (truthy s) [ none ↦ false | some t ↦ true ]

-- `SET "filledSize" = GREATEST(0, "filledSize" - n) WHERE owner = … AND nonce = …`
unfoldable pub is_order : String → ℕ → OrderRow → Bool
is_order owner nonce r = str_eq r.owner owner && r.nonce == nonce

unfoldable pub return_size : String → ℕ → ℕ → Db → Unit {0} × Db
unfolding is_order with_filled
return_size owner nonce n db = (
  tt,
  record db {
    orders = update_where (is_order owner nonce) (λ r. with_filled (r.filled_size - n) r) db.orders;
  },
)

-- One round of the loop over the two parties.
unfoldable pub return_to : String → Option ℕ → ℕ → Exec (Unit {0})
return_to owner none n = pure tt
return_to owner (some nonce) n = sql (return_size owner nonce n)

-- The fields that `rollbackFill` needs, if none is missing.
unfoldable pub rollback_fields : JobPayload → Option (String × String × String × ℕ)
unfolding truthy
rollback_fields p = elim (truthy p.pending_tx_hash) [
  | none ↦ none
  | some tx ↦ elim (truthy p.maker_address) [
    | none ↦ none
    | some maker ↦ elim (truthy p.taker_address) [
      | none ↦ none
      | some taker ↦ elim p.fill_size [ none ↦ none | some n ↦ some (tx, maker, taker, n) ]
    ]
  ]
]

abbrev pub roll_back : String → JobPayload → Option (String × String × String × ℕ) → Exec (Unit {0})
roll_back network p none = pure tt
roll_back network p (some (tx, maker, taker, n)) = do
  sql (delete_fill network tx)
  return_to maker p.maker_nonce n
  return_to taker p.taker_nonce n

unfoldable pub rollback_fill : String → Option JobPayload → Exec (Unit {0})
rollback_fill network none = pure tt
rollback_fill network (some p) = roll_back network p (rollback_fields p)
