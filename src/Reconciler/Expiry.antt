-- ===== src/Reconciler/Expiry.antt =====
-- The expiry of jobs whose signatures were never collected.
use mathlib.Core.Bool.{false≢true}
use kryon.Common.{
  ℕ, ◌≡◌, ◌≢◌, refl, sym, ap, ◌∙◌, ◌⊎◌, inl, inr, String, true, false, Option, none, some, List, [],
  ◌∷◌, All, In, arith, update_where, All-update_cases, All-intro, keep-In, Bool-cases,
}
use kryon.Matcher.Fills.{delete_fill}
use kryon.Matcher.Fills.RoundTrip.{calm}
use kryon.Reconciler.Jobs.{mark_where, has_id, is_status, is_queued}
use kryon.Reconciler.{
  Config, return_size, return_to, rollback_fields, roll_back, rollback_fill, mark, both_signed,
  expire_job, is_stale, expire_stale_queued,
}
use kryon.Database.{Db, TxJob, JobPayload, failed}
use kryon.Database.Exec.{Exec, ok, sql, sql_at, for_await, ◌>>=◌}

-- An action that succeeds when no statement fails, and leaves the jobs alone.
record IsQuiet (m : Exec (Unit {0})) : Type 0 where
  after : Db → ℕ → Db
  runs : (db : Db) (now : ℕ) → m (calm db now) ≡ (ok tt, calm (after db now) now)
  jobs : (db : Db) (now : ℕ) → (after db now).jobs ≡ db.jobs

return_to-IsQuiet : (owner : String) (nonce : Option ℕ) (n : ℕ) → IsQuiet (return_to owner nonce n)
unfolding return_to sql return_size
return_to-IsQuiet owner none n = record {
  after = λ db now. db;
  runs = λ db now. refl;
  jobs = λ db now. refl;
}
return_to-IsQuiet owner (some nonce) n = record {
  after = λ db now. (return_size owner nonce n db).1;
  runs = λ db now. refl;
  jobs = λ db now. refl;
}

delete_fill-IsQuiet : (network tx : String) → IsQuiet (sql (delete_fill network tx))
unfolding sql delete_fill
delete_fill-IsQuiet network tx = record {
  after = λ db now. (delete_fill network tx db).1;
  runs = λ db now. refl;
  jobs = λ db now. refl;
}

IsQuiet-bind : (m n : Exec (Unit {0})) → IsQuiet m → IsQuiet n → IsQuiet (m >>= λ _. n)
unfolding ◌>>=◌
IsQuiet-bind m n p q = record {
  after = λ db now. q.after (p.after db now) now;
  runs = λ db now. rw (p.runs db now) (q.runs (p.after db now) now);
  jobs = λ db now. q.jobs (p.after db now) now ∙ p.jobs db now;
}

roll_back-IsQuiet :
    (network : String) (p : JobPayload) (f : Option (String × String × String × ℕ))
    → IsQuiet (roll_back network p f)
roll_back-IsQuiet network p none = record {
  after = λ db now. db;
  runs = λ db now. refl;
  jobs = λ db now. refl;
}
roll_back-IsQuiet network p (some (tx, maker, taker, n)) =
    IsQuiet-bind _ _ (delete_fill-IsQuiet network tx) (
      IsQuiet-bind _ _ (return_to-IsQuiet maker p.maker_nonce n)
        (return_to-IsQuiet taker p.taker_nonce n))

rollback_fill-IsQuiet :
    (network : String) (p : Option JobPayload) → IsQuiet (rollback_fill network p)
unfolding rollback_fill
rollback_fill-IsQuiet network none = record {
  after = λ db now. db;
  runs = λ db now. refl;
  jobs = λ db now. refl;
}
rollback_fill-IsQuiet network (some p) = roll_back-IsQuiet network p (rollback_fields p)

module _ (minutes now : ℕ) where
  -- A stale job is signed by both parties, or still to be expired.
  abbrev Rest : List TxJob → List TxJob → Type 0
  Rest js = All λ r. is_stale minutes now r ≡ true → (both_signed r.unsigned_xdr ≡ true) ⊎ In r js

  Rest-signed :
      (j : TxJob) (js rows : List TxJob)
      → both_signed j.unsigned_xdr ≡ true
      → Rest (j ∷ js) rows
      → Rest js rows
  Rest-signed j js [] e h = tt
  Rest-signed j js (r ∷ rs) e h = (λ stale. pick (h.0 stale), Rest-signed j js rs e h.1)
    where
      pick :
          (both_signed r.unsigned_xdr ≡ true) ⊎ In r (j ∷ js)
          → (both_signed r.unsigned_xdr ≡ true) ⊎ In r js
      pick (inl s) = inl s
      pick (inr (inl same)) = inl (rw same e)
      pick (inr (inr m)) = inr m

  stale-is_queued : (r : TxJob) → is_stale minutes now r ≡ true → is_queued r.id r ≡ true
  unfolding is_stale is_queued has_id
  stale-is_queued r h = ground arith

  failed_row : Option String → TxJob → TxJob
  failed_row why r = record r { status = failed; last_error = why; updated_at = now }

  failed_row-fresh :
      (why : Option String) (r : TxJob) → is_stale minutes now (failed_row why r) ≡ false
  unfolding is_stale is_status failed_row
  failed_row-fresh why r = ground arith

  not_queued-ne : (j r : TxJob) → is_stale minutes now r ≡ true → is_queued j.id r ≡ false → r ≢ j
  not_queued-ne j r stale e same = absurd (
      false≢true
        (sym e ∙ ap (λ (x : TxJob). is_queued x.id r) (sym same) ∙ stale-is_queued r stale))

  Rest-failed :
      (j : TxJob) (js rows : List TxJob) (why : Option String)
      → Rest (j ∷ js) rows
      → Rest js (update_where (is_queued j.id) (failed_row why) rows)
  Rest-failed j js rows why =
      All-update_cases _ _ (is_queued j.id) (failed_row why)
        (λ r e h stale. absurd (false≢true (sym (failed_row-fresh why r) ∙ stale)))
        (λ r e h stale. elim (h stale) [
          | inl s ↦ inl s
          | inr (inl same) ↦ absurd (not_queued-ne j r stale e same)
          | inr (inr m) ↦ inr m
        ])
        rows

  -- One job: it succeeds, and one job less is to be expired.
  abbrev Expires : TxJob → List TxJob → Db → Type 0
  Expires j js db =
      (db' : Db) × (expire_job j (calm db now) ≡ (ok tt, calm db' now))
      × (Rest (j ∷ js) db.jobs → Rest js db'.jobs)

  expire_job-Expires : (j : TxJob) (js : List TxJob) (db : Db) → Expires j js db
  unfolding expire_job mark sql_at failed_row
  expire_job-Expires j js db = elim (Bool-cases (both_signed j.unsigned_xdr)) [
    | inl e ↦ (db, rw e, Rest-signed j js db.jobs e)
    | inr e ↦
        let q = rollback_fill-IsQuiet j.network j.unsigned_xdr in
        let db' = q.after db now in
        (
          mark_where (is_queued j.id) (failed_row (some "auth collection timeout")) db',
          rw (e, q.runs db now) refl,
          λ h. rw (q.jobs db now) (Rest-failed j js db.jobs (some "auth collection timeout") h),
        )
  ]

  for_await-Rest :
      (js : List TxJob) (db : Db)
      → Rest js db.jobs
      → Rest [] (for_await expire_job js (calm db now)).1.db.jobs
  unfolding for_await
  for_await-Rest [] db h = h
  for_await-Rest (j ∷ js) db h =
      let (db', runs, fewer) = expire_job-Expires j js db in
      rw runs (for_await-Rest js db' (fewer h))

-- Every stale job is signed by both parties.
abbrev pub StaleAreSigned : ℕ → ℕ → List TxJob → Type 0
StaleAreSigned minutes now =
    All λ r. is_stale minutes now r ≡ true → both_signed r.unsigned_xdr ≡ true

Rest-nil :
    (minutes now : ℕ) (rows : List TxJob)
    → Rest minutes now [] rows
    → StaleAreSigned minutes now rows
Rest-nil minutes now [] h = tt
Rest-nil minutes now (r ∷ rs) h =
    (λ stale. elim (h.0 stale) [ inl s ↦ s | inr m ↦ absurd m ], Rest-nil minutes now rs h.1)

-- When no statement fails, no queued job older than the limit is left after the expiry but those that
-- both parties have signed.
pub expire_stale_queued_complete :
    (c : Config) (db : Db) (now : ℕ)
    → StaleAreSigned c.stale_queued_minutes now (expire_stale_queued c (calm db now)).1.db.jobs
unfolding expire_stale_queued sql_at
expire_stale_queued_complete c db now = Rest-nil c.stale_queued_minutes now _ (
    for_await-Rest c.stale_queued_minutes now _ db
      (All-intro _ db.jobs (λ r i stale. inr (keep-In _ r db.jobs i stale))))
