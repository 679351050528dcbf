-- ===== src/Reconciler.antt =====
-- client/scripts/settlement-reconciler.ts
pub mod Jobs
pub mod Tests
pub mod Expiry
pub mod Stuck
pub mod Keeps
pub mod Claims
pub mod Rollback
use kryon.Common.{
  ℕ, zero, suc, ◌+◌, ◌*◌, String, Bool, true, false, not, ◌&&◌, ◌||◌, Option, none, some, List, [],
  ◌∷◌, ltb, ◌==◌, str_eq, if◌then◌else◌, keep, take, any, update_where,
}
use kryon.Matcher.Settlement.{settle_fill}
use kryon.Database.{Db, FillRow, TxJob, JobPayload, TxStatus, queued, submitted, confirmed, failed}
use kryon.Database.Exec.{
  World, Outcome, Exec, pure, throw, sql, sql_at, call, try_catch, for_await, ◌>>=◌, ◌>>◌,
}
unfoldable pub use Rollback.{
  truthy, present, is_order, return_size, return_to, rollback_fields, roll_back, rollback_fill,
}
use Jobs.{
  is_status, has_id, is_submitted, is_queued, is_claimable, mark_where, fill_of_payload,
  fill_of_parties,
}

-- What `getTransaction` answers.
pub data TxPoll : Type 0 where
  success : ℕ → TxPoll
  tx_failed not_found : TxPoll

-- The environment of the service, and its calls of a Stellar node. `get_transaction` takes the number
-- of the poll; `rebuild_and_send` stands for the SDK calls between the claim of a job and the hash.
pub record Config : Type 0 where
  pub operator_secret : Option String
  pub stale_queued_minutes : ℕ
  pub get_transaction : String → ℕ → World → Outcome TxPoll
  pub rebuild_and_send : JobPayload → World → Outcome String

-- The hash and the ledger that a settled fill gets. A nonce that is missing makes the statement fail:
-- the empty text is no number.
abbrev with_nonces : TxJob → JobPayload → String → ℕ → Option ℕ → Option ℕ → Exec (Unit {0})
with_nonces j p tx ledger (some mn) (some tn) = sql (λ db. (
  tt,
  record db {
    fills =
        update_where (fill_of_payload j.network p mn tn)
          (λ f. record f { tx_hash = tx; ledger = ledger }) db.fills;
  },
))
with_nonces j p tx ledger mn tn = throw "invalid input syntax for type bigint"

unfoldable pub confirm_fill : TxJob → Option JobPayload → String → ℕ → Exec (Unit {0})
unfolding present fill_of_payload
confirm_fill j none tx ledger = pure tt
confirm_fill j (some p) tx ledger =
    if present p.pending_tx_hash && present p.maker_address && present p.taker_address
    then with_nonces j p tx ledger p.maker_nonce p.taker_nonce
    else pure tt

unfoldable pub resubmit_payload : TxJob → Option JobPayload
unfolding present
resubmit_payload j = elim j.unsigned_xdr [
  | none ↦ none
  | some p ↦
      if present p.assembled_tx_xdr && present p.maker_signed_entry && present p.taker_signed_entry
      then some p
      else none
]

-- `UPDATE "TxJob" SET status = 'SUBMITTED' … RETURNING id`, whether a row came back
unfoldable pub claim : TxJob → ℕ → Db → Bool × Db
unfolding is_claimable mark_where
claim j now db = (
  any (is_claimable j.id) db.jobs,
  mark_where (is_claimable j.id) (λ r. record r { status = submitted; updated_at = now }) db,
)

unfoldable pub mark : (TxJob → Bool) → TxStatus → Option String → Exec (Unit {0})
unfolding mark_where
mark p status why = sql_at λ now db.
    (tt, mark_where p (λ r. record r { status = status; last_error = why; updated_at = now }) db)

-- `SET status = 'CONFIRMED'` leaves `lastError` alone.
unfoldable pub mark_confirmed : (TxJob → Bool) → Exec (Unit {0})
unfolding mark_where
mark_confirmed p =
    sql_at
      (λ now db. (tt, mark_where p (λ r. record r { status = confirmed; updated_at = now }) db))

unfoldable pub store_hash : TxJob → String → Exec (Unit {0})
unfolding has_id mark_where
store_hash j tx = sql_at λ now db.
    (tt, mark_where (has_id j.id) (λ r. record r { submitted_hash = some tx; updated_at = now }) db)

-- The statement that writes the hash after a resubmission does not look at the nonces.
unfoldable pub confirm_resubmitted : TxJob → JobPayload → String → ℕ → Exec (Unit {0})
unfolding present fill_of_parties
confirm_resubmitted j p tx ledger =
    if present p.pending_tx_hash && present p.maker_address && present p.taker_address
    then sql (λ db. (
      tt,
      record db {
        fills =
            update_where (fill_of_parties j.network p)
              (λ f. record f { tx_hash = tx; ledger = ledger }) db.fills;
      },
    ))
    else pure tt

abbrev on_poll : TxJob → JobPayload → String → Exec (Unit {0}) → TxPoll → Exec (Unit {0})
on_poll j p tx again (success ledger) = do
  mark_confirmed (has_id j.id)
  confirm_resubmitted j p tx ledger
on_poll j p tx again tx_failed = mark (has_id j.id) failed (some "resubmit tx failed")
on_poll j p tx again not_found = again

-- `for (let i = 0; i < 10; i++)`: the rounds that are left, and the number of this one.
unfoldable pub poll_resubmitted : Config → TxJob → JobPayload → String → ℕ → ℕ → Exec (Unit {0})
unfolding ◌>>=◌
poll_resubmitted c j p tx zero i = pure tt
poll_resubmitted c j p tx (suc left) i =
    call (c.get_transaction tx i) >>= on_poll j p tx (poll_resubmitted c j p tx left (suc i))

unfoldable pub send_claimed : Config → TxJob → JobPayload → Exec (Unit {0})
unfolding ◌>>=◌
send_claimed c j p =
    try_catch (do tx ← call (c.rebuild_and_send p); store_hash j tx; poll_resubmitted c j p tx 10 0)
      (λ e. try_catch (mark (has_id j.id) failed (some e)) (λ _. pure tt))

abbrev resubmit_with : Config → TxJob → Option JobPayload → Exec (Unit {0})
resubmit_with c j none = pure tt
resubmit_with c j (some p) = do
  claimed ← sql_at (λ now. claim j now)
  if not claimed then pure tt else send_claimed c j p

unfoldable pub resubmit_job : Config → TxJob → Exec (Unit {0})
unfolding ◌>>=◌ present
resubmit_job c j =
    if present c.operator_secret then resubmit_with c j (resubmit_payload j) else pure tt

-- A failed `getTransaction` is logged, and the job waits for the next tick.
abbrev on_answer : Config → TxJob → String → Option TxPoll → Exec (Unit {0})
on_answer c j tx none = pure tt
on_answer c j tx (some (success ledger)) = do
  mark_confirmed (is_submitted j.id)
  confirm_fill j j.unsigned_xdr tx ledger
on_answer c j tx (some tx_failed) = do
  rollback_fill j.network j.unsigned_xdr
  mark (is_submitted j.id) failed (some "on-chain tx failed")
on_answer c j tx (some not_found) = resubmit_job c j

unfoldable pub reconcile_hash : Config → TxJob → Option String → Exec (Unit {0})
unfolding ◌>>=◌
reconcile_hash c j none = pure tt
reconcile_hash c j (some tx) =
    try_catch (call (c.get_transaction tx 0) >>= λ p. pure (some p)) (λ e. pure none)
    >>= on_answer c j tx

unfoldable pub reconcile_submitted : Config → TxJob → Exec (Unit {0})
unfolding reconcile_hash truthy
reconcile_submitted c j = reconcile_hash c j (truthy j.submitted_hash)

abbrev both_signed : Option JobPayload → Bool
both_signed none = false
both_signed (some p) = present p.maker_signed_entry && present p.taker_signed_entry

unfoldable pub expire_job : TxJob → Exec (Unit {0})
unfolding ◌>>=◌
expire_job j = if both_signed j.unsigned_xdr then pure tt else do
  rollback_fill j.network j.unsigned_xdr
  mark (is_queued j.id) failed (some "auth collection timeout")

unfoldable pub is_stale : ℕ → ℕ → TxJob → Bool
is_stale minutes now j =
    str_eq j.kind settle_fill && is_status queued j && ltb (j.created_at + minutes * 60) now

unfoldable pub expire_stale_queued : Config → Exec (Unit {0})
unfolding ◌>>=◌ is_stale is_status
expire_stale_queued c = do
  jobs ← sql_at (λ now db. (keep (is_stale c.stale_queued_minutes now) db.jobs, db))
  for_await expire_job jobs

abbrev has_entries : Option JobPayload → Bool
has_entries none = false
has_entries (some p) = elim p.maker_signed_entry [
  | none ↦ false
  | some _ ↦ elim p.taker_signed_entry [ none ↦ false | some _ ↦ true ]
]

unfoldable pub to_check : ℕ → TxJob → Bool
to_check now j = str_eq j.kind settle_fill && is_status submitted j && ltb (j.updated_at + 30) now

unfoldable pub to_resubmit : ℕ → TxJob → Bool
to_resubmit now j =
    str_eq j.kind settle_fill
    && is_status queued j
    && has_entries j.unsigned_xdr
    && ltb (j.updated_at + 30) now

unfoldable pub tick : Config → Exec (Unit {0})
unfolding ◌>>=◌ to_check to_resubmit is_status
tick c = do
  sent ← sql_at (λ now db. (take 50 (keep (to_check now) db.jobs), db))
  for_await (reconcile_submitted c) sent
  ready ← sql_at (λ now db. (take 20 (keep (to_resubmit now) db.jobs), db))
  for_await (resubmit_job c) ready
  expire_stale_queued c
