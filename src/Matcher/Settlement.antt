-- ===== src/Matcher/Settlement.antt =====
-- `recordSettlementFailure` and `executeSettlement` of client/scripts/matcher-service.ts, with the
-- upserts into "TxJob" that they make.
pub mod Requeue
use kryon.Common.{
  ℕ, suc, ◌+◌, String, ◌<>◌, Bool, true, false, ◌&&◌, Option, none, some, List, [], ◌∷◌, ◌++◌, ltb,
  str_eq, if◌then◌else◌, any, update_where,
}
use kryon.Matcher.Order.{RestingOrder, MatchResult}
use kryon.Matcher.Hash.{pseudo_tx_hash}
use kryon.Matcher.Config.{Config, SettleResult, hash, reason}
use kryon.Database.{Db, TxJob, TxStatus, JobPayload, queued, submitted, confirmed, failed}
use kryon.Database.Exec.{Exec, pure, sql_at, call, try_catch, ◌>>=◌, ◌>>◌}

abbrev pub settle_fill : String
settle_fill = "settle_fill"

-- The unique key (network, kind, payloadHash).
unfoldable pub has_key : String → String → TxJob → Bool
has_key network payload_hash j =
    str_eq j.network network && str_eq j.kind settle_fill && str_eq j.payload_hash payload_hash

-- The id of a new row, above those in use.
unfoldable pub next_id : List TxJob → ℕ
next_id [] = 1
next_id (j ∷ js) = let rest = next_id js in if ltb j.id rest then rest else suc j.id

-- `INSERT … ON CONFLICT (network, kind, "payloadHash") DO UPDATE SET …`
unfoldable pub upsert_job : TxJob → (TxJob → TxJob) → Db → Unit {0} × Db
unfolding has_key next_id
upsert_job j f db = (
  tt,
  record db {
    jobs =
        if any (has_key j.network j.payload_hash) db.jobs
        then update_where (has_key j.network j.payload_hash) f db.jobs
        else db.jobs ++ record j { id = next_id db.jobs } ∷ [];
  },
)

unfoldable pub failed_job : String → String → String → ℕ → TxJob
failed_job network fill_hash why now = record {
  id = 0;
  network = network;
  kind = settle_fill;
  payload_hash = fill_hash;
  unsigned_xdr = none;
  status = failed;
  last_error = some why;
  submitted_hash = none;
  attempts = 1;
  created_at = now;
  updated_at = now;
}

unfoldable pub fail_again : String → ℕ → TxJob → TxJob
fail_again why now j = record j {
  status = failed;
  last_error = some why;
  attempts = j.attempts + 1;
  updated_at = now;
}

unfoldable pub record_settlement_failure : String → String → String → Exec (Unit {0})
record_settlement_failure network fill_hash why =
    try_catch
      (sql_at (λ now. upsert_job (failed_job network fill_hash why now) (fail_again why now)))
      (λ e. pure tt)

-- The JSON text '{}' of a job that was settled on the fast path.
abbrev pub empty_payload : JobPayload
empty_payload = record {
  maker_address = none;
  taker_address = none;
  assembled_tx_xdr = none;
  maker_signed_entry = none;
  taker_signed_entry = none;
  fill_size = none;
  pending_tx_hash = none;
  maker_nonce = none;
  taker_nonce = none;
}

unfoldable pub confirmed_job : String → String → String → ℕ → TxJob
confirmed_job network fill_hash tx now = record (failed_job network fill_hash "" now) {
  unsigned_xdr = some empty_payload;
  status = confirmed;
  last_error = none;
  submitted_hash = some tx;
  attempts = 0;
}

unfoldable pub confirm_again : String → ℕ → TxJob → TxJob
confirm_again tx now j = record j { status = confirmed; submitted_hash = some tx; updated_at = now }

unfoldable pub queued_job : String → String → JobPayload → ℕ → TxJob
queued_job network fill_hash payload now = record (failed_job network fill_hash "" now) {
  unsigned_xdr = some payload;
  status = queued;
  last_error = none;
  attempts = 0;
}

-- The conflict clause of the queue writes the payload and leaves the status alone.
unfoldable pub queue_again : JobPayload → ℕ → TxJob → TxJob
queue_again payload now j = record j { unsigned_xdr = some payload; updated_at = now }

unfoldable pub job_payload : MatchResult → String → JobPayload → JobPayload
job_payload m fill_hash pending = record pending {
  pending_tx_hash = some fill_hash;
  maker_nonce = some m.maker.nonce;
  taker_nonce = some m.taker.nonce;
}

-- An empty signature is falsy.
unfoldable pub has_signature : RestingOrder → Bool
has_signature o = elim o.signature [ none ↦ false | some s ↦ if str_eq s "" then false else true ]

abbrev pub after_submit : Config → String → SettleResult → Exec Bool
after_submit c fill_hash (hash tx) = do
  sql_at (λ now. upsert_job (confirmed_job c.network fill_hash tx now) (confirm_again tx now))
  pure true
after_submit c fill_hash (reason why) = do
  record_settlement_failure c.network fill_hash ("signed fast path: " <> why)
  pure false

abbrev pub after_simulation : Config → MatchResult → String → Option JobPayload → Exec Bool
after_simulation c m fill_hash none = do
  record_settlement_failure c.network fill_hash "simulateSettleFill returned null (auth-entry path)"
  pure false
after_simulation c m fill_hash (some pending) = do
  let payload = job_payload m fill_hash pending
  sql_at (λ now. upsert_job (queued_job c.network fill_hash payload now) (queue_again payload now))
  pure true

unfoldable pub execute_settlement : Config → MatchResult → Exec Bool
unfolding ◌>>=◌ has_signature
execute_settlement c m =
    let fill_hash = pseudo_tx_hash m.maker m.taker m.fill_size in
    if has_signature m.maker && has_signature m.taker
    then (call (c.submit_settle_fill_signed m fill_hash) >>= after_submit c fill_hash)
    else (call (c.simulate_settle_fill m fill_hash) >>= after_simulation c m fill_hash)
