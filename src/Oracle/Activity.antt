-- ===== src/Oracle/Activity.antt =====
-- client/lib/oracle-activity.ts: whether anything on the exchange needs a fresh price.
pub mod Quiet
use kryon.Common.{
  ℕ, ◌≡◌, refl, String, ◌<>◌, Bool, true, false, not, ◌&&◌, ◌||◌, Option, none, some, List, [], ◌∷◌,
  ◌++◌, ltb, if◌then◌else◌, any, arith,
}
use kryon.Database.{Db, OrderRow, TxJob, queued, submitted}
use kryon.Database.Exec.{
  World, Outcome, ok, thrown, Exec, pure, sql, sql_at, call, try_catch, ◌>>=◌,
}
use kryon.Reconciler.Jobs.{is_status}

-- What the check asks outside the tables of this model: whether the table of positions has an open one, and what
-- the vault holds, `thrown` also where its simulation fails.
pub record ActivityConfig : Type 0 where
  pub open_position : World → Outcome Bool
  pub total_deposited : World → Outcome ℕ

pub record ActivityStatus : Type 0 where
  pub active : Bool
  pub reasons : List String

-- `WHERE cancelled = false AND "filledSize" < size AND "expiryTs" > now`
unfoldable pub is_resting : ℕ → OrderRow → Bool
is_resting now r = not r.cancelled && ltb r.filled_size r.size && ltb now r.expiry_ts

unfoldable pub is_pending : TxJob → Bool
unfolding is_status
is_pending j = is_status queued j || is_status submitted j

-- One signal: its reason where a question is answered yes, an error as a reason where it throws.
unfoldable pub signal : String → String → Exec Bool → Exec (List String)
signal reason error question =
    try_catch (question >>= λ found. pure (if found then reason ∷ [] else []))
      λ e. pure ((error <> e) ∷ [])

unfoldable pub order_question : Exec Bool
unfolding is_resting
order_question = sql_at λ now db. (any (is_resting now) db.orders, db)

unfoldable pub job_question : Exec Bool
unfolding is_pending
job_question = sql λ db. (any is_pending db.jobs, db)

abbrev has_deposits : Outcome ℕ → Outcome Bool
has_deposits (ok n) = ok (ltb 0 n)
has_deposits (thrown e) = thrown e

unfoldable pub db_signals : ActivityConfig → Exec (List String)
unfolding signal order_question job_question
db_signals c = signal "open-orders" "order-check-error:" order_question >>= λ orders.
    signal "pending-settlements" "txjob-check-error:" job_question >>= λ jobs.
    signal "open-positions" "position-check-error:" (call c.open_position) >>= λ positions.
    pure (orders ++ (jobs ++ positions))

unfoldable pub vault_deposits_signal : ActivityConfig → Exec (List String)
unfolding signal
vault_deposits_signal c =
    signal "vault-deposits" "vault-check-error:" (call (λ w. has_deposits (c.total_deposited w)))

abbrev status_of : List String → ActivityStatus
status_of [] = record { active = false; reasons = [] }
status_of (r ∷ rs) = record { active = true; reasons = r ∷ rs }

unfoldable pub check_protocol_activity : ActivityConfig → Exec ActivityStatus
unfolding db_signals vault_deposits_signal
check_protocol_activity c =
    db_signals c >>= λ db. vault_deposits_signal c >>= λ vault. pure (status_of (db ++ vault))
