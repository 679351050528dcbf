-- ===== src/Reconciler/Claims.antt =====
-- Two claims of one settlement job: `resubmitJob` of client/scripts/settlement-reconciler.ts, after its own claim
-- and after that of client/app/api/settlements/[id]/sign/route.ts.
use kryon.Common.{
  ℕ, ◌≡◌, Bool, true, ◌&&◌, ◌||◌, List, [], ◌∷◌, any, update_where, Bool-cases, inl, inr, arith,
}
use kryon.Database.{Db, TxJob, queued, submitted}
use kryon.Reconciler.{claim}
use kryon.Reconciler.Jobs.{has_id, is_status, is_claimable, is_null, mark_where}
use kryon.Settling.{claim_submission}

-- A row of the job that is queued, or submitted, and that has no hash of a transaction.
unfoldable pub is_unsent : ℕ → TxJob → Bool
unfolding has_id is_status
is_unsent id j =
    has_id id j && (is_status queued j || is_status submitted j) && is_null j.submitted_hash

-- A write that keeps the rows of one test in another.
any-update_true :
    {A : Type 0} (p q w : A → Bool) (f : A → A)
    → ((x : A) → p x ≡ true → (q x ≡ true) × (q (f x) ≡ true))
    → (xs : List A) → any p xs ≡ true
    → any q (update_where w f xs) ≡ true
unfolding any update_where
any-update_true p q w f h (x ∷ xs) e = elim (Bool-cases (p x)) [
  | inl t ↦ let (old, new) = h x t in ground (arith, old, new)
  | inr t ↦ let ih = any-update_true p q w f h xs (ground (arith, t, e)) in ground (arith, ih)
]
any-update_true p q w f h [] e = e

any_mono :
    {A : Type 0} (p q : A → Bool)
    → ((x : A) → p x ≡ true → q x ≡ true)
    → (xs : List A) → any p xs ≡ true
    → any q xs ≡ true
unfolding any
any_mono p q h [] e = e
any_mono p q h (x ∷ xs) e = elim (Bool-cases (p x)) [
  | inl t ↦ rw (h x t)
  | inr f ↦ let ih = any_mono p q h xs (ground (arith, f, e)) in ground (arith, ih)
]

unsent-claimable :
    (id now : ℕ) (r : TxJob)
    → is_unsent id r ≡ true
    → (is_claimable id r ≡ true)
      × (is_claimable id (record r { status = submitted; updated_at = now }) ≡ true)
unfolding is_unsent is_claimable has_id is_status
unsent-claimable id now r e = ground arith

-- When a row of a job has no hash yet, a claim of the reconciler succeeds, and it succeeds again after a
-- claim of the reconciler and after a claim of the sign route: claims do not exclude one another.
pub claim-again :
    (j : TxJob) (now later : ℕ) (db : Db)
    → any (is_unsent j.id) db.jobs ≡ true
    → ((claim j now db).0 ≡ true)
      × ((claim j later (claim j now db).1).0 ≡ true)
      × ((claim j later (claim_submission j.id now db).1).0 ≡ true)
unfolding claim claim_submission mark_where
claim-again j now later db unsent = (
  any_mono (is_unsent j.id) (is_claimable j.id) (λ r e. (unsent-claimable j.id now r e).0) db.jobs
      unsent,
  any-update_true (is_unsent j.id) (is_claimable j.id) _ _ (unsent-claimable j.id now) db.jobs
      unsent,
  any-update_true (is_unsent j.id) (is_claimable j.id) _ _ (unsent-claimable j.id now) db.jobs
      unsent,
)
