-- ===== src/Reconciler/Stuck.antt =====
-- Jobs that the reconciler never resolves.
use kryon.Common.{
  ℕ, ◌≡◌, refl, ap, String, true, false, Option, none, some, List, [], ◌∷◌, All, arith, any,
  update_where-no_rows, Bool-cases, inl, inr,
}
use kryon.Matcher.Fills.RoundTrip.{calm}
use kryon.Reconciler.Jobs.{is_claimable, has_id, is_status}
use kryon.Reconciler.{
  Config, not_found, claim, resubmit_with, resubmit_payload, resubmit_job, reconcile_submitted,
  truthy, present,
}
use kryon.Database.{Db, TxJob, JobPayload, submitted}
use kryon.Database.Exec.{ok, sql_at, call, try_catch, ◌>>=◌}

-- Every row with the id is submitted and has a hash.
abbrev pub IsSent : ℕ → List TxJob → Type 0
IsSent id =
    All λ r.
      has_id id r ≡ true → (r.status ≡ submitted) × ((s : String) × (r.submitted_hash ≡ some s))

sent-not_claimable :
    (id : ℕ) (rows : List TxJob) → IsSent id rows → any (is_claimable id) rows ≡ false
unfolding any is_claimable has_id is_status
sent-not_claimable id [] h = refl
sent-not_claimable id (r ∷ rs) h = ground (arith, sent-not_claimable id rs h.1, h.0)

resubmit_with-sent :
    (c : Config) (j : TxJob) (p : Option JobPayload) (db : Db) (now : ℕ)
    → IsSent j.id db.jobs
    → (resubmit_with c j p (calm db now)).1.db ≡ db
unfolding ◌>>=◌ sql_at claim
resubmit_with-sent c j none db now h = refl
resubmit_with-sent c j (some p) db now h =
    let unclaimed = sent-not_claimable j.id db.jobs h in
    rw unclaimed (
      ap (λ (rows : List TxJob). record db { jobs = rows })
        (update_where-no_rows (is_claimable j.id) _ db.jobs unclaimed))

-- A job that was sent is not claimed, so resubmitting it does nothing.
resubmit_job-sent :
    (c : Config) (j : TxJob) (db : Db) (now : ℕ)
    → IsSent j.id db.jobs
    → (resubmit_job c j (calm db now)).1.db ≡ db
unfolding resubmit_job
resubmit_job-sent c j db now h = elim (Bool-cases (present c.operator_secret)) [
  | inl e ↦ rw e (resubmit_with-sent c j (resubmit_payload j) db now h)
  | inr e ↦ rw e
]

-- A submitted job whose transaction the node does not find stays as it is: the call of `resubmitJob`
-- claims no row whose hash is stored, and nothing in the tables changes.
pub reconcile_submitted-not_found :
    (c : Config) (j : TxJob) (tx : String) (db : Db) (now : ℕ)
    → truthy j.submitted_hash ≡ some tx
    → c.get_transaction tx 0 (calm db now) ≡ ok not_found
    → IsSent j.id db.jobs
    → (reconcile_submitted c j (calm db now)).1.db ≡ db
unfolding reconcile_submitted call try_catch
reconcile_submitted-not_found c j tx db now e answer h =
    rw (e, answer) (resubmit_job-sent c j db now h)
