-- ===== src/Settling/Race.antt =====
-- Requests to sign one settlement that run at once: client/app/api/settlements/[id]/sign/route.ts, with its
-- statements as the atomic steps, in any order and with other writers of the tables between them.
pub mod Exclusive
use kryon.Common.{
  ℕ, ◌≡◌, refl, sym, subst, ◌∙◌, String, Bool, true, false, not, ◌&&◌, ◌||◌, ◌==◌, Option, none,
  some, List, [], ◌∷◌, if◌then◌else◌, any, update_where, Bool-cases, inl, inr, arith,
  any-update_where,
}
use kryon.Database.{Db, TxJob, JobPayload, queued, submitted, failed}
use kryon.Reconciler.{present}
use kryon.Reconciler.Jobs.{is_queued, is_status, has_id}
use kryon.Settling.{merge_entry, claim_submission, store_submitted, fail_submission, is_settle_job}

-- How far a request has come: it has to merge its entry, it has to claim the submission of a payload, it has
-- the claim, it has sent the transaction or failed to, or it is over without the claim.
pub data Phase : Type 0 where
  signing : Bool → String → Phase
  claiming holding sent : JobPayload → Phase
  over : Phase

pub record System : Type 0 where
  pub db : Db
  pub requests : ℕ → Phase

abbrev pub update : (ℕ → Phase) → ℕ → Phase → ℕ → Phase
update requests i phase k = if k == i then phase else requests k

unfoldable pub has_both : JobPayload → Bool
has_both p = present p.maker_signed_entry && present p.taker_signed_entry

-- What the merge leads to, by the payload that came back.
abbrev pub after_merging : Option (Option JobPayload) → Phase
after_merging none = over
after_merging (some none) = over
after_merging (some (some p)) = if has_both p then claiming p else over

abbrev pub after_claiming : JobPayload → Bool → Phase
after_claiming p claimed = if claimed then holding p else over

-- No row of the job is queued.
abbrev pub IsTaken : ℕ → Db → Type 0
IsTaken id db = any (is_queued id) db.jobs ≡ false

-- One statement of one request, or a write of another service, none of which queues a job again.
pub data Step (id : ℕ) : System → System → Type 0 where
  merge :
      {s : System} (i : ℕ) (maker : Bool) (entry : String) (now : ℕ)
      → s.requests i ≡ signing maker entry
      → Step id s (record {
        db = (merge_entry id maker entry now s.db).1;
        requests = update s.requests i (after_merging (merge_entry id maker entry now s.db).0);
      })
  claim :
      {s : System} (i : ℕ) (p : JobPayload) (now : ℕ)
      → s.requests i ≡ claiming p
      → Step id s (record {
        db = (claim_submission id now s.db).1;
        requests = update s.requests i (after_claiming p (claim_submission id now s.db).0);
      })
  store :
      {s : System} (i : ℕ) (p : JobPayload) (tx : String) (now : ℕ)
      → s.requests i ≡ holding p
      → Step id s (record {
        db = (store_submitted id tx now s.db).1;
        requests = update s.requests i (sent p);
      })
  fail :
      {s : System} (i : ℕ) (p : JobPayload) (error : String) (now : ℕ)
      → s.requests i ≡ holding p
      → Step id s (record {
        db = (fail_submission id error now s.db).1;
        requests = update s.requests i (sent p);
      })
  elsewhere :
      {s : System} (db : Db)
      → (IsTaken id s.db → IsTaken id db)
      → Step id s (record { db = db; requests = s.requests })

pub data Reach (id : ℕ) (s : System) : System → Type 0 where
  here : Reach id s s
  next : {t u : System} → Reach id s t → Step id t u → Reach id s u

-- The payload of a request that has, or had, the claim.
abbrev pub claimed_payload : Phase → Option JobPayload
claimed_payload (holding p) = some p
claimed_payload (sent p) = some p
claimed_payload (claiming p) = none
claimed_payload (signing maker entry) = none
claimed_payload over = none

abbrev pub Holds : System → ℕ → JobPayload → Type 0
Holds s i p = claimed_payload (s.requests i) ≡ some p

abbrev pub IsSigning : Phase → Type 0
IsSigning (signing maker entry) = Unit {0}
IsSigning (claiming p) = ⊥
IsSigning (holding p) = ⊥
IsSigning (sent p) = ⊥
IsSigning over = Unit {0}

-- No request has merged its entry yet.
abbrev pub IsStart : System → Type 0
IsStart s = (i : ℕ) → IsSigning (s.requests i)
