-- ===== src/Reconciler/Keeps.antt =====
-- What the reconciler keeps, whichever statements throw and whatever the node answers.
use kryon.Common.{
  length-update_where, ℕ, zero, suc, ◌-◌, ◌≤◌, ◌≡◌, refl, String, Bool, Option, none, some, List,
  All, All-update_where, arith, length, update_where,
}
use kryon.Matcher.Fills.{delete_fill}
use kryon.Reconciler.{
  Config, TxPoll, success, tx_failed, not_found, return_size, return_to, is_order, rollback_fields,
  roll_back, rollback_fill, with_nonces, confirm_fill, claim, mark, mark_confirmed, store_hash,
  confirm_resubmitted, on_poll, poll_resubmitted, send_claimed, resubmit_with, resubmit_job,
  on_answer, reconcile_hash, reconcile_submitted, expire_job, expire_stale_queued, tick, truthy,
}
use kryon.Database.{Db, OrderRow, FillRow, TxJob, TxStatus, JobPayload}
use kryon.Database.Orders.{IsWithin, with_filled}
use kryon.Database.Exec.{
  World, Keeps, Keeps-sql, Keeps-sql_at, Keeps-for_await, keeps_rules, sql, sql_at,
}

-- A predicate on the orders and the number of fills.
module _ (Q : List OrderRow → ℕ → Type 0) where
  abbrev P : Db → Type 0
  P db = Q db.orders (length db.fills)

  claim-Keeps : (j : TxJob) → Keeps P (sql_at (λ now. claim j now))
  unfolding claim
  claim-Keeps j = Keeps-sql_at _ (λ now db h. h)

  mark-Keeps : (p : TxJob → Bool) (s : TxStatus) (why : Option String) → Keeps P (mark p s why)
  unfolding mark
  mark-Keeps p s why = Keeps-sql_at _ (λ now db h. h)

  mark_confirmed-Keeps : (p : TxJob → Bool) → Keeps P (mark_confirmed p)
  unfolding mark_confirmed
  mark_confirmed-Keeps p = Keeps-sql_at _ (λ now db h. h)

  store_hash-Keeps : (j : TxJob) (tx : String) → Keeps P (store_hash j tx)
  unfolding store_hash
  store_hash-Keeps j tx = Keeps-sql_at _ (λ now db h. h)

  rewrite_fills-Keeps :
      (p : FillRow → Bool) (f : FillRow → FillRow)
      → Keeps P (sql (λ db. (tt, record db { fills = update_where p f db.fills })))
  rewrite_fills-Keeps p f = Keeps-sql _ (λ db h. rw (length-update_where p f db.fills) h)

  confirm_resubmitted-Keeps :
      (j : TxJob) (p : JobPayload) (tx : String) (ledger : ℕ)
      → Keeps P (confirm_resubmitted j p tx ledger)
  unfolding confirm_resubmitted
  confirm_resubmitted-Keeps j p tx ledger = search (keeps_rules, rewrite_fills-Keeps) depth 6

  with_nonces-Keeps :
      (j : TxJob) (p : JobPayload) (tx : String) (ledger : ℕ) (mn tn : Option ℕ)
      → Keeps P (with_nonces j p tx ledger mn tn)
  with_nonces-Keeps j p tx ledger none tn = search keeps_rules
  with_nonces-Keeps j p tx ledger (some mn) none = search keeps_rules
  with_nonces-Keeps j p tx ledger (some mn) (some tn) = rewrite_fills-Keeps _ _

  confirm_fill-Keeps :
      (j : TxJob) (p : Option JobPayload) (tx : String) (ledger : ℕ)
      → Keeps P (confirm_fill j p tx ledger)
  unfolding confirm_fill
  confirm_fill-Keeps j none tx ledger = search keeps_rules
  confirm_fill-Keeps j (some p) tx ledger = search (keeps_rules, with_nonces-Keeps)

  module _ (c : Config) where
    poll_resubmitted-Keeps :
        (j : TxJob) (p : JobPayload) (tx : String) (left i : ℕ)
        → Keeps P (poll_resubmitted c j p tx left i)
    unfolding poll_resubmitted
    poll_resubmitted-Keeps j p tx zero i = search keeps_rules
    poll_resubmitted-Keeps j p tx (suc left) i =
        let later = poll_resubmitted-Keeps j p tx left (suc i) in search (keeps_rules, answer later)
      where
        answer :
            Keeps P (poll_resubmitted c j p tx left (suc i))
            → (a : TxPoll) → Keeps P (on_poll j p tx (poll_resubmitted c j p tx left (suc i)) a)
        answer later (success ledger) =
            search (keeps_rules, mark_confirmed-Keeps, confirm_resubmitted-Keeps)
        answer later tx_failed = mark-Keeps _ _ _
        answer later not_found = later

    send_claimed-Keeps : (j : TxJob) (p : JobPayload) → Keeps P (send_claimed c j p)
    unfolding send_claimed
    send_claimed-Keeps j p =
        search (keeps_rules, store_hash-Keeps, poll_resubmitted-Keeps, mark-Keeps) depth 8

    resubmit_with-Keeps : (j : TxJob) (p : Option JobPayload) → Keeps P (resubmit_with c j p)
    resubmit_with-Keeps j none = search keeps_rules
    resubmit_with-Keeps j (some p) = search (keeps_rules, claim-Keeps, send_claimed-Keeps) depth 8

    pub resubmit_job-Keeps : (j : TxJob) → Keeps P (resubmit_job c j)
    unfolding resubmit_job
    resubmit_job-Keeps j = search (keeps_rules, resubmit_with-Keeps)

-- A predicate on the orders alone, which holds again after a size is returned.
module _ (Q : List OrderRow → Type 0)
    (returned : (owner : String) (nonce n : ℕ) (rows : List OrderRow)
      → Q rows
      → Q (update_where (is_order owner nonce) (λ r. with_filled (r.filled_size - n) r) rows))
    (c : Config) where
  abbrev Orders : Db → Type 0
  Orders db = Q db.orders

  delete_fill-Keeps : (network tx : String) → Keeps Orders (sql (delete_fill network tx))
  unfolding delete_fill
  delete_fill-Keeps network tx = Keeps-sql _ (λ db h. h)

  return_to-Keeps :
      (owner : String) (nonce : Option ℕ) (n : ℕ) → Keeps Orders (return_to owner nonce n)
  unfolding return_to return_size
  return_to-Keeps owner none n = search keeps_rules
  return_to-Keeps owner (some nonce) n = Keeps-sql _ (λ db h. returned owner nonce n db.orders h)

  roll_back-Keeps :
      (network : String) (p : JobPayload) (f : Option (String × String × String × ℕ))
      → Keeps Orders (roll_back network p f)
  roll_back-Keeps network p none = search keeps_rules
  roll_back-Keeps network p (some (tx, maker, taker, n)) =
      search (keeps_rules, delete_fill-Keeps, return_to-Keeps) depth 8

  rollback_fill-Keeps :
      (network : String) (p : Option JobPayload) → Keeps Orders (rollback_fill network p)
  unfolding rollback_fill
  rollback_fill-Keeps network none = search keeps_rules
  rollback_fill-Keeps network (some p) = roll_back-Keeps network p (rollback_fields p)

  abbrev Any : List OrderRow → ℕ → Type 0
  Any rows n = Q rows

  on_answer-Keeps :
      (j : TxJob) (tx : String) (a : Option TxPoll) → Keeps Orders (on_answer c j tx a)
  on_answer-Keeps j tx none = search keeps_rules
  on_answer-Keeps j tx (some (success ledger)) =
      search (keeps_rules, mark_confirmed-Keeps Any, confirm_fill-Keeps Any)
  on_answer-Keeps j tx (some tx_failed) = search (keeps_rules, rollback_fill-Keeps, mark-Keeps Any)
  on_answer-Keeps j tx (some not_found) = resubmit_job-Keeps Any c j

  reconcile_hash-Keeps : (j : TxJob) (tx : Option String) → Keeps Orders (reconcile_hash c j tx)
  unfolding reconcile_hash
  reconcile_hash-Keeps j none = search keeps_rules
  reconcile_hash-Keeps j (some tx) = search (keeps_rules, on_answer-Keeps) depth 8

  reconcile_submitted-Keeps : (j : TxJob) → Keeps Orders (reconcile_submitted c j)
  unfolding reconcile_submitted
  reconcile_submitted-Keeps j = reconcile_hash-Keeps j (truthy j.submitted_hash)

  expire_job-Keeps : (j : TxJob) → Keeps Orders (expire_job j)
  unfolding expire_job
  expire_job-Keeps j = search (keeps_rules, rollback_fill-Keeps, mark-Keeps Any) depth 8

  expire_stale_queued-Keeps : Keeps Orders (expire_stale_queued c)
  unfolding expire_stale_queued
  expire_stale_queued-Keeps =
      search (keeps_rules, Keeps-sql_at, Keeps-for_await, expire_job-Keeps) depth 8

  any_resubmit : (j : TxJob) → Keeps Orders (resubmit_job c j)
  any_resubmit = resubmit_job-Keeps Any c

  tick-Keeps : Keeps Orders (tick c)
  unfolding tick
  tick-Keeps =
      search
        (
          keeps_rules, Keeps-sql_at, Keeps-for_await, reconcile_submitted-Keeps, any_resubmit,
          expire_stale_queued-Keeps,
        )
        depth 12

-- A tick of the reconciler keeps every order filled within its size, whichever of its statements throw
-- and whatever the node answers.
pub reconcile-IsWithin : (c : Config) (w : World) → IsWithin w.db → IsWithin (tick c w).1.db
unfolding with_filled
reconcile-IsWithin c w h =
    (tick-Keeps (All λ r. r.filled_size ≤ r.size)
        (λ owner nonce n rows k.
          All-update_where (λ r. r.filled_size ≤ r.size) _ _ (λ r e i. omega arith) rows k)
        c).at
      w h

-- Whatever the node answers, a resubmission changes no order and removes no fill: also where it marks
-- its job as failed, the size of the fill is not given back.
pub resubmit_job-keeps_fill :
    (c : Config) (j : TxJob) (w : World)
    → ((resubmit_job c j w).1.db.orders ≡ w.db.orders)
      × (length (resubmit_job c j w).1.db.fills ≡ length w.db.fills)
resubmit_job-keeps_fill c j w =
    (resubmit_job-Keeps (λ rows n. (rows ≡ w.db.orders) × (n ≡ length w.db.fills)) c j).at w
      (refl, refl)
