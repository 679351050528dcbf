-- ===== src/Settling/Keeps.antt =====
-- What a request to sign a settlement leaves alone.
use kryon.Common.{
  ℕ, ◌≡◌, refl, ◌∙◌, String, Bool, true, false, not, ◌&&◌, ◌||◌, Option, none, some, List, [], ◌∷◌,
  ltb, ◌==◌, keep, update_where, Bool-cases, inl, inr, arith,
}
use kryon.Database.{Db, TxJob, JobPayload, queued}
use kryon.Database.Exec.{
  World, Keeps, Keeps-pure, Keeps-sql, Keeps-sql_at, Keeps-call, Keeps-if, Keeps-bind,
  Keeps-try_catch,
}
use kryon.Http.{Request, Value, as_text, body_too_large, request_key}
use kryon.Http.Text.{text_length}
use kryon.Http.Limit.{Keeps-rate_limit}
use kryon.Reconciler.{present}
use kryon.Reconciler.Jobs.{is_status, has_id}
use kryon.Settling.{
  SettleConfig, merge_entry, claim_submission, store_submitted, fail_submission, is_settle_job,
  send_settlement, submit_settlement, after_merge, sign_payload, sign_job, sign_with, sign_entry,
  sign_address, sign_post, auth_entry_belongs_to, body_fields, is_truthy, same_text, is_party,
}

-- An update of rows that a test drops, which it drops after the update as well, changes no other row.
keep-update_where :
    {A : Type 0} (p q : A → Bool) (f : A → A)
    → ((x : A) → q x ≡ true → (p x ≡ false) × (p (f x) ≡ false))
    → (xs : List A) → keep p (update_where q f xs) ≡ keep p xs
unfolding keep update_where
keep-update_where p q f h [] = refl
keep-update_where p q f h (x ∷ xs) = elim (Bool-cases (q x)) [
  | inl e ↦ rw (e, (h x e).0, (h x e).1, keep-update_where p q f h xs)
  | inr e ↦ rw (e, keep-update_where p q f h xs)
]

abbrev pub is_other : ℕ → TxJob → Bool
is_other id j = not (j.id == id)

-- The tables but for the job `id` are those of `old`.
abbrev pub DiffersAtJob : ℕ → Db → Db → Type 0
DiffersAtJob id old db =
    (db.orders ≡ old.orders)
    × (db.fills ≡ old.fills)
    × (db.markets ≡ old.markets)
    × (db.accounts ≡ old.accounts)
    × (keep (is_other id) db.jobs ≡ keep (is_other id) old.jobs)

module _ (id : ℕ) (old : Db) where
  abbrev P : Db → Type 0
  P = DiffersAtJob id old

  update-P :
      (wanted : TxJob → Bool) (f : TxJob → TxJob)
      → ((j : TxJob) → wanted j ≡ true → (is_other id j ≡ false) × (is_other id (f j) ≡ false))
      → (db : Db) → P db
      → P (record db { jobs = update_where wanted f db.jobs })
  update-P wanted f own db (o, f', m, a, j) =
      (o, f', m, a, keep-update_where (is_other id) wanted f own db.jobs ∙ j)

  merge_entry-P :
      (maker : Bool) (entry : String) (now : ℕ) (db : Db)
      → P db
      → P (merge_entry id maker entry now db).1
  unfolding merge_entry is_settle_job has_id
  merge_entry-P maker entry now db = update-P _ _ (λ j e. (ground arith, ground arith)) db

  claim_submission-P : (now : ℕ) (db : Db) → P db → P (claim_submission id now db).1
  unfolding claim_submission has_id
  claim_submission-P now db = update-P _ _ (λ j e. (ground arith, ground arith)) db

  store_submitted-P : (tx : String) (now : ℕ) (db : Db) → P db → P (store_submitted id tx now db).1
  unfolding store_submitted has_id
  store_submitted-P tx now db = update-P _ _ (λ j e. (ground arith, ground arith)) db

  fail_submission-P :
      (error : String) (now : ℕ) (db : Db) → P db → P (fail_submission id error now db).1
  unfolding fail_submission has_id
  fail_submission-P error now db = update-P _ _ (λ j e. (ground arith, ground arith)) db

  module _ (c : SettleConfig) where
    Keeps-send_settlement :
        (p : JobPayload) (secret : Option String) → Keeps P (send_settlement c id p secret)
    Keeps-send_settlement p none = Keeps-pure _
    Keeps-send_settlement p (some secret) = Keeps-bind _ _ (Keeps-call (c.rebuild_and_send p)) λ tx.
        Keeps-bind _ _ (Keeps-sql_at (store_submitted id tx) (store_submitted-P tx))
          (λ _. Keeps-pure _)

    Keeps-submit_settlement : (p : JobPayload) → Keeps P (submit_settlement c id p)
    unfolding submit_settlement
    Keeps-submit_settlement p =
        Keeps-try_catch _ _ (Keeps-send_settlement p c.fee_payer_secret) λ e.
          Keeps-bind _ _
            (Keeps-try_catch _ _ (Keeps-sql_at (fail_submission id e) (fail_submission-P e))
              (λ _. Keeps-pure tt))
            (λ _. Keeps-pure _)

    Keeps-after_merge : (m : Option (Option JobPayload)) → Keeps P (after_merge c id m)
    Keeps-after_merge none = Keeps-pure _
    Keeps-after_merge (some none) = Keeps-pure _
    Keeps-after_merge (some (some p)) =
        Keeps-if (not (present p.maker_signed_entry) || not (present p.taker_signed_entry)) _ _
          (Keeps-pure _)
          (Keeps-bind _ _ (Keeps-sql_at (claim_submission id) claim_submission-P)
            λ claimed. Keeps-if (not claimed) _ _ (Keeps-pure _) (Keeps-submit_settlement p))

    Keeps-sign_payload :
        (address entry : String) (p : Option JobPayload)
        → Keeps P (sign_payload c id address entry p)
    unfolding sign_payload
    Keeps-sign_payload address entry none = Keeps-pure _
    Keeps-sign_payload address entry (some p) =
        Keeps-if (not (is_party c p.maker_address) || not (is_party c p.taker_address)) _ _
          (Keeps-pure _)
          (Keeps-if
            (not (same_text address p.maker_address) && not (same_text address p.taker_address)) _ _
            (Keeps-pure _)
            (Keeps-bind _ _
              (Keeps-sql_at (merge_entry id (same_text address p.maker_address) entry)
                (merge_entry-P (same_text address p.maker_address) entry))
              Keeps-after_merge))

    Keeps-sign_job :
        (address entry : String) (j : Option TxJob) → Keeps P (sign_job c id address entry j)
    unfolding sign_job
    Keeps-sign_job address entry none = Keeps-pure _
    Keeps-sign_job address entry (some j) =
        Keeps-if (not (is_status queued j)) _ _ (Keeps-pure _)
          (Keeps-sign_payload address entry j.unsigned_xdr)

    module _ (req : Request) where
      Keeps-sign_with : (address entry : String) → Keeps P (sign_with c id req address entry)
      unfolding sign_with
      Keeps-sign_with address entry =
          Keeps-if (not (auth_entry_belongs_to c entry address)) _ _ (Keeps-pure _) (
            Keeps-bind _ _ (Keeps-rate_limit (request_key req address) 30 c.limiter) λ free.
              Keeps-if (not free) _ _ (Keeps-pure _)
                (Keeps-bind _ _ (Keeps-sql _ (λ db h. h)) (Keeps-sign_job address entry)))

      Keeps-sign_entry :
          (address : String) (entry : Option String) → Keeps P (sign_entry c id req address entry)
      Keeps-sign_entry address none = Keeps-pure _
      Keeps-sign_entry address (some entry) =
          Keeps-if (ltb 8192 (text_length entry)) _ _ (Keeps-pure _) (Keeps-sign_with address entry)

      Keeps-sign_address :
          (b : String → Value) (address : Option String) → Keeps P (sign_address c id req b address)
      Keeps-sign_address b none = Keeps-pure _
      Keeps-sign_address b (some address) =
          Keeps-if (not (c.is_valid_public_key address)) _ _ (Keeps-pure _)
            (Keeps-sign_entry address (as_text (b "signedAuthEntry")))

-- A request to sign the settlement of a job changes no other job, no order, no fill, no market and no
-- account, whichever statements throw and whatever the node answers: also where it marks the job as failed.
pub sign_post-DiffersAtJob :
    (c : SettleConfig) (id : ℕ) (req : Request) (w : World)
    → DiffersAtJob id w.db (sign_post c id req w).1.db
unfolding sign_post
sign_post-DiffersAtJob c id req w =
    let b = body_fields req.body in
    let k : Keeps (DiffersAtJob id w.db) (sign_post c id req) =
      Keeps-if (body_too_large req 12288) _ _ (Keeps-pure _) (
        Keeps-if (not (is_truthy (b "signedAuthEntry")) || not (is_truthy (b "address"))) _ _
          (Keeps-pure _) (Keeps-sign_address id w.db c req b (as_text (b "address")))) in
    k.at w (refl, refl, refl, refl, refl)
