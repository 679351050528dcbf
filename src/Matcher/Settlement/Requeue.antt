-- ===== src/Matcher/Settlement/Requeue.antt =====
-- A settlement that failed once and is queued again.
use kryon.Common.{
  ℕ, ◌≡◌, refl, String, true, false, ◌&&◌, some, List, All, any, update_where, All-update_where,
  any-update_where, ◌∙◌,
}
use kryon.Matcher.Order.{MatchResult}
use kryon.Matcher.Hash.{pseudo_tx_hash}
use kryon.Matcher.Config.{Config}
use kryon.Matcher.Fills.RoundTrip.{calm}
use kryon.Matcher.Settlement.{
  execute_settlement, failed_job, has_signature, has_key, upsert_job, queued_job, queue_again,
  job_payload,
}
use kryon.Database.{Db, TxJob, JobPayload, failed}
use kryon.Database.Exec.{ok, sql_at, call}

-- The table has a job of the fill, and all such jobs have failed.
abbrev pub HasFailed : String → String → List TxJob → Type 0
HasFailed network fill_hash jobs =
    (any (has_key network fill_hash) jobs ≡ true)
    × All (λ j. has_key network fill_hash j ≡ true → j.status ≡ failed) jobs

queue_again-HasFailed :
    (network fill_hash : String) (payload : JobPayload) (now : ℕ) (jobs : List TxJob)
    → HasFailed network fill_hash jobs
    → HasFailed network fill_hash
        (update_where (has_key network fill_hash) (queue_again payload now) jobs)
unfolding has_key queue_again
queue_again-HasFailed network fill_hash payload now jobs h = (
  any-update_where (has_key network fill_hash) (has_key network fill_hash) _ (λ j. refl) jobs ∙ h.0,
  All-update_where (λ j. has_key network fill_hash j ≡ true → j.status ≡ failed) _ _ (λ j e k. k)
      jobs h.1,
)

-- When a fill whose settlement has failed is queued again for the signatures of its traders, its job
-- stays failed, although `executeSettlement` answers true.
pub execute_settlement-stays_failed :
    (c : Config) (m : MatchResult) (payload : JobPayload) (db : Db) (now : ℕ)
    → has_signature m.maker && has_signature m.taker ≡ false
    → c.simulate_settle_fill m (pseudo_tx_hash m.maker m.taker m.fill_size) (calm db now)
      ≡ ok (some payload)
    → HasFailed c.network (pseudo_tx_hash m.maker m.taker m.fill_size) db.jobs
    → let r = execute_settlement c m (calm db now) in
      (r.0 ≡ ok true) × HasFailed c.network (pseudo_tx_hash m.maker m.taker m.fill_size) r.1.db.jobs
unfolding execute_settlement call sql_at upsert_job queued_job failed_job job_payload
execute_settlement-stays_failed c m payload db now unsigned simulated h =
    rw (unsigned, simulated, h.0) (refl, queue_again-HasFailed _ _ _ now db.jobs h)
