-- ===== src/Reconciler/Jobs.antt =====
-- The rows that the statements of the reconciler select, and its writes to "TxJob".
use kryon.Common.{
  ℕ, String, Bool, true, false, ◌&&◌, ◌||◌, Option, none, some, ◌==◌, str_eq, update_where,
}
use kryon.Database.{Db, FillRow, TxJob, JobPayload, TxStatus, queued, submitted, confirmed, failed}

abbrev same_status : TxStatus → TxStatus → Bool
same_status queued queued = true
same_status submitted submitted = true
same_status confirmed confirmed = true
same_status failed failed = true
same_status _ _ = false

unfoldable pub is_status : TxStatus → TxJob → Bool
is_status s j = same_status s j.status

unfoldable pub has_id : ℕ → TxJob → Bool
has_id id j = j.id == id

-- `WHERE id = … AND status = 'SUBMITTED'`, and `'QUEUED'`
unfoldable pub is_submitted : ℕ → TxJob → Bool
unfolding has_id is_status
is_submitted id j = has_id id j && is_status submitted j

unfoldable pub is_queued : ℕ → TxJob → Bool
unfolding has_id is_status
is_queued id j = has_id id j && is_status queued j

abbrev pub is_null : Option String → Bool
is_null none = true
is_null (some _) = false

-- `status IN ('QUEUED', 'SUBMITTED') AND (status = 'QUEUED' OR "submittedHash" IS NULL)`
unfoldable pub is_claimable : ℕ → TxJob → Bool
unfolding has_id is_status
is_claimable id j =
    has_id id j
    && (is_status queued j || is_status submitted j)
    && (is_status queued j || is_null j.submitted_hash)

unfoldable pub mark_where : (TxJob → Bool) → (TxJob → TxJob) → Db → Db
mark_where p f db = record db { jobs = update_where p f db.jobs }

abbrev is_text : Option String → String → Bool
is_text none s = false
is_text (some t) s = str_eq t s

-- The fills of a job's payload, by hash and parties, and by the nonces too.
unfoldable pub fill_of_parties : String → JobPayload → FillRow → Bool
fill_of_parties network p f =
    str_eq f.network network
    && is_text p.pending_tx_hash f.tx_hash
    && is_text p.maker_address f.maker
    && is_text p.taker_address f.taker

unfoldable pub fill_of_payload : String → JobPayload → ℕ → ℕ → FillRow → Bool
unfolding fill_of_parties
fill_of_payload network p mn tn f =
    fill_of_parties network p f && f.maker_nonce == mn && f.taker_nonce == tn
