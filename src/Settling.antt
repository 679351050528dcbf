-- ===== src/Settling.antt =====
-- client/app/api/settlements/[id]/sign/route.ts: it collects the signatures of the two parties of a queued
-- job and submits the settlement.
pub mod Keeps
pub mod Race
pub mod Tests
use kryon.Common.{
  ℕ, String, Bool, true, false, not, ◌&&◌, ◌||◌, Option, none, some, List, [], ◌∷◌, ltb, ◌==◌,
  str_eq, if◌then◌else◌, find, update_where, any,
}
use kryon.Matcher.Settlement.{settle_fill}
use kryon.Database.{Db, TxJob, JobPayload, TxStatus, queued, submitted, confirmed, failed}
use kryon.Database.Exec.{World, Outcome, Exec, pure, sql, sql_at, call, try_catch, ◌>>=◌, ◌>>◌}
use kryon.Http.{
  Request, Response, Value, Json, null_body, scalar, object, missing, null, boolean, number, text,
  other, refuse, answer, as_text, body_too_large, request_key,
}
use kryon.Http.Text.{text_length}
use kryon.Http.Limit.{LimiterConfig, rate_limit}
use kryon.Reconciler.{present}
use kryon.Reconciler.Jobs.{is_status, has_id}

-- What the route reads of its environment, and its calls of the Stellar SDK. `entry_address` is the address
-- that an authorization entry names in address credentials, `none` where it is malformed or has others.
-- `rebuild_and_send` stands for the calls between the secret and the hash of the sent transaction.
pub record SettleConfig : Type 0 where
  pub limiter : LimiterConfig
  pub is_valid_public_key : String → Bool
  pub entry_address : String → Option String
  pub fee_payer_secret : Option String
  pub rebuild_and_send : JobPayload → World → Outcome String

abbrev same_text : String → Option String → Bool
same_text s none = false
same_text s (some t) = str_eq t s

unfoldable pub auth_entry_belongs_to : SettleConfig → String → String → Bool
auth_entry_belongs_to c entry address = same_text address (c.entry_address entry)

abbrev is_truthy : Value → Bool
is_truthy missing = false
is_truthy null = false
is_truthy (boolean b) = b
is_truthy (number s) = not (str_eq s "0")
is_truthy (text s) = not (str_eq s "")
is_truthy (other s) = true

-- `WHERE id = … AND kind = 'settle_fill'`
unfoldable pub is_settle_job : ℕ → TxJob → Bool
unfolding has_id
is_settle_job id j = has_id id j && str_eq j.kind settle_fill

abbrev with_entry : Bool → String → JobPayload → JobPayload
with_entry maker entry p =
    if maker
    then record p { maker_signed_entry = some entry }
    else record p { taker_signed_entry = some entry }

abbrev map_payload : (JobPayload → JobPayload) → Option JobPayload → Option JobPayload
map_payload f none = none
map_payload f (some p) = some (f p)

abbrev payload_of_row : Option TxJob → Option (Option JobPayload)
payload_of_row none = none
payload_of_row (some j) = some j.unsigned_xdr

-- The statement that merges an entry, with the payload that `RETURNING` gives
unfoldable pub merge_entry : ℕ → Bool → String → ℕ → Db → Option (Option JobPayload) × Db
unfolding is_settle_job is_status
merge_entry id maker entry now db =
    let wanted : TxJob → Bool = λ j. is_settle_job id j && is_status queued j in
    let jobs =
      update_where wanted
        (λ j. record j {
          unsigned_xdr = map_payload (with_entry maker entry) j.unsigned_xdr;
          updated_at = now;
        })
        db.jobs in
    (payload_of_row (find wanted jobs), record db { jobs = jobs })

-- The statement that claims the submission, whether a row came back
unfoldable pub claim_submission : ℕ → ℕ → Db → Bool × Db
unfolding has_id is_status
claim_submission id now db =
    let wanted : TxJob → Bool = λ j. has_id id j && is_status queued j in
    (
      any wanted db.jobs,
      record db {
        jobs = update_where wanted (λ j. record j { status = submitted; updated_at = now }) db.jobs;
      },
    )

unfoldable pub store_submitted : ℕ → String → ℕ → Db → Unit {0} × Db
unfolding has_id
store_submitted id tx now db = (
  tt,
  record db {
    jobs =
        update_where (has_id id) (λ j. record j { submitted_hash = some tx; updated_at = now })
          db.jobs;
  },
)

unfoldable pub fail_submission : ℕ → String → ℕ → Db → Unit {0} × Db
unfolding has_id
fail_submission id error now db = (
  tt,
  record db {
    jobs =
        update_where (has_id id)
          (λ j. record j { status = failed; last_error = some error; updated_at = now }) db.jobs;
  },
)

abbrev send_settlement : SettleConfig → ℕ → JobPayload → Option String → Exec Response
send_settlement c id p none = pure (refuse 500 "Missing matcher fee-payer secret")
send_settlement c id p (some secret) = call (c.rebuild_and_send p) >>= λ tx.
    sql_at (store_submitted id tx) >> pure (answer "submitted")

-- The request that holds the claim submits.
unfoldable pub submit_settlement : SettleConfig → ℕ → JobPayload → Exec Response
submit_settlement c id p = try_catch (send_settlement c id p c.fee_payer_secret) λ e.
    try_catch (sql_at (fail_submission id e)) (λ ignored. pure tt)
    >> pure (refuse 500 "Settlement submission failed")

abbrev claim_with : SettleConfig → ℕ → JobPayload → Exec Response
claim_with c id p =
    if not (present p.maker_signed_entry) || not (present p.taker_signed_entry)
    then pure (answer "waiting_for_other_party")
    else sql_at (claim_submission id) >>= λ claimed.
        if not claimed then pure (answer "submitting") else submit_settlement c id p

abbrev after_merge : SettleConfig → ℕ → Option (Option JobPayload) → Exec Response
after_merge c id none = pure (answer "already_processing")
after_merge c id (some none) = pure (refuse 500 "Malformed TxJob payload")
after_merge c id (some (some p)) = claim_with c id p

abbrev is_party : SettleConfig → Option String → Bool
is_party c none = false
is_party c (some a) = c.is_valid_public_key a

-- The tests of the parties of a job, and the merge.
unfoldable pub sign_payload : SettleConfig → ℕ → String → String → Option JobPayload → Exec Response
sign_payload c id address entry none = pure (refuse 500 "Malformed TxJob payload")
sign_payload c id address entry (some p) =
    let is_maker = same_text address p.maker_address in
    let is_taker = same_text address p.taker_address in
    if not (is_party c p.maker_address) || not (is_party c p.taker_address)
    then pure (refuse 500 "Malformed TxJob parties")
    else if not is_maker && not is_taker
    then pure (refuse 403 "Address not party to this fill")
    else sql_at (merge_entry id is_maker entry) >>= after_merge c id

unfoldable pub sign_job : SettleConfig → ℕ → String → String → Option TxJob → Exec Response
sign_job c id address entry none = pure (refuse 404 "TxJob not found")
sign_job c id address entry (some j) =
    if not (is_status queued j)
    then pure (refuse 409 "Already processed")
    else sign_payload c id address entry j.unsigned_xdr

-- The route for an address and an entry of the right form.
unfoldable pub sign_with : SettleConfig → ℕ → Request → String → String → Exec Response
sign_with c id req address entry =
    if not (auth_entry_belongs_to c entry address)
    then pure (refuse 400 "Signed auth entry does not belong to the given address")
    else rate_limit c.limiter (request_key req address) 30 >>= λ free.
        if not free
        then pure (refuse 429 "Too many settlement requests")
        else sql (λ db. (find (is_settle_job id) db.jobs, db)) >>= sign_job c id address entry

abbrev sign_entry : SettleConfig → ℕ → Request → String → Option String → Exec Response
sign_entry c id req address none = pure (refuse 400 "Invalid signed auth entry")
sign_entry c id req address (some entry) =
    if ltb 8192 (text_length entry)
    then pure (refuse 400 "Invalid signed auth entry")
    else sign_with c id req address entry

abbrev sign_address : SettleConfig → ℕ → Request → (String → Value) → Option String → Exec Response
sign_address c id req b none = pure (refuse 400 "Invalid address")
sign_address c id req b (some address) =
    if not (c.is_valid_public_key address)
    then pure (refuse 400 "Invalid address")
    else sign_entry c id req address (as_text (b "signedAuthEntry"))

abbrev body_fields : Option Json → String → Value
body_fields none = λ f. missing
body_fields (some null_body) = λ f. missing
body_fields (some scalar) = λ f. missing
body_fields (some (object b)) = b

unfoldable pub sign_post : SettleConfig → ℕ → Request → Exec Response
sign_post c id req =
    let b = body_fields req.body in
    if body_too_large req 12288
    then pure (refuse 413 "Body too large")
    else if not (is_truthy (b "signedAuthEntry")) || not (is_truthy (b "address"))
    then pure (refuse 400 "Missing signedAuthEntry or address")
    else sign_address c id req b (as_text (b "address"))
