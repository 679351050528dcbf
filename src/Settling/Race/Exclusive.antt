-- ===== src/Settling/Race/Exclusive.antt =====
-- At most one request submits a settlement.
use kryon.Common.{
  ℕ, ◌≡◌, refl, sym, subst, ◌∙◌, String, Bool, true, false, ◌==◌, Option, none, some, List, [], ◌∷◌,
  any, update_where, Bool-cases, inl, inr, arith, any-update_where,
}
use kryon.Database.{Db, TxJob, JobPayload, failed}
use kryon.Reconciler.Jobs.{is_queued, is_status, has_id}
use kryon.Settling.{merge_entry, claim_submission, store_submitted, fail_submission}
use kryon.Settling.Race.{
  Phase, signing, claiming, holding, sent, over, System, update, has_both, after_merging, IsTaken,
  Step, merge, claim, store, fail, elsewhere, Reach, here, next, claimed_payload, Holds, IsSigning,
  IsStart,
}

abbrev IsReady : Phase → Type 0
IsReady (claiming p) = has_both p ≡ true
IsReady (holding p) = has_both p ≡ true
IsReady (sent p) = has_both p ≡ true
IsReady (signing maker entry) = Unit {0}
IsReady over = Unit {0}

pub record IsExclusive (id : ℕ) (s : System) : Type 0 where
  pub alone : (i j : ℕ) (p q : JobPayload) → Holds s i p → Holds s j q → i ≡ j
  pub taken : (i : ℕ) (p : JobPayload) → Holds s i p → IsTaken id s.db
  pub ready : (i : ℕ) → IsReady (s.requests i)

module _ (id : ℕ) {s : System} (e : IsExclusive id s) (i : ℕ) (phase : Phase) where
  Holds-update :
      claimed_payload phase ≡ claimed_payload (s.requests i)
      → (db : Db) (k : ℕ) (p : JobPayload)
      → Holds (record { db = db; requests = update s.requests i phase }) k p
      → Holds s k p
  Holds-update same db k p h = elim (Bool-cases (k == i)) [
    | inl t ↦ let at_i : k ≡ i = ground (arith, t) in rw at_i (sym same ∙ (rw t at h))
    | inr f ↦ rw f at h
  ]

  IsReady-update : IsReady phase → (k : ℕ) → IsReady (update s.requests i phase k)
  IsReady-update r k = elim (Bool-cases (k == i)) [ inl t ↦ rw t r | inr f ↦ rw f (e.ready k) ]

  -- A step after which a request holds what it held before, and the job is taken if it was.
  move-IsExclusive :
      (db : Db)
      → claimed_payload phase ≡ claimed_payload (s.requests i)
      → (IsTaken id s.db → IsTaken id db)
      → IsReady phase
      → IsExclusive id (record { db = db; requests = update s.requests i phase })
  move-IsExclusive db same keeps r = record {
    alone =
        λ j k p q h m. e.alone j k p q (Holds-update same db j p h) (Holds-update same db k q m);
    taken = λ j p h. keeps (e.taken j p (Holds-update same db j p h));
    ready = IsReady-update r;
  }

-- The claim of a request that wins, when no request holds it.
win-IsExclusive :
    (id : ℕ) {s : System} (i : ℕ) (p : JobPayload) (db : Db)
    → IsExclusive id s
    → ((j : ℕ) (q : JobPayload) → ¬ Holds s j q)
    → IsTaken id db
    → has_both p ≡ true
    → IsExclusive id (record { db = db; requests = update s.requests i (holding p) })
win-IsExclusive id {s} i p db e nobody taken both = record {
  alone = λ j k q r h m. only j q h ∙ sym (only k r m);
  taken = λ j q h. taken;
  ready = IsReady-update id e i (holding p) both;
}
  where
    only :
        (j : ℕ) (q : JobPayload)
        → claimed_payload (update s.requests i (holding p) j) ≡ some q
        → j ≡ i
    only j q h = elim (Bool-cases (j == i)) [
      | inl t ↦ ground (arith, t)
      | inr f ↦ absurd (nobody j q (rw f at h))
    ]

after_merging-claims_nothing :
    (m : Option (Option JobPayload)) → claimed_payload (after_merging m) ≡ none
after_merging-claims_nothing none = refl
after_merging-claims_nothing (some none) = refl
after_merging-claims_nothing (some (some p)) = ground arith

after_merging-IsReady : (m : Option (Option JobPayload)) → IsReady (after_merging m)
after_merging-IsReady none = tt
after_merging-IsReady (some none) = tt
after_merging-IsReady (some (some p)) = elim (Bool-cases (has_both p)) [
  | inl e ↦ rw e e
  | inr e ↦ rw e tt
]

-- A write that sets the status leaves no row of its test queued.
any-update_false :
    {A : Type 0} (p : A → Bool) (f : A → A) (xs : List A)
    → ((x : A) → p x ≡ true → p (f x) ≡ false)
    → any p (update_where p f xs) ≡ false
unfolding any update_where
any-update_false p f [] h = refl
any-update_false p f (x ∷ xs) h = elim (Bool-cases (p x)) [
  | inl e ↦ rw (e, h x e, any-update_false p f xs h)
  | inr e ↦ rw (e, e, any-update_false p f xs h)
]

module _ (id : ℕ) (db : Db) where
  merge_entry-IsTaken :
      (maker : Bool) (entry : String) (now : ℕ)
      → IsTaken id db
      → IsTaken id (merge_entry id maker entry now db).1
  unfolding merge_entry is_queued is_status has_id
  merge_entry-IsTaken maker entry now h =
      any-update_where _ (is_queued id) _ (λ j. refl) db.jobs ∙ h

  claim_submission-IsTaken : (now : ℕ) → IsTaken id (claim_submission id now db).1
  unfolding claim_submission is_queued is_status has_id
  claim_submission-IsTaken now = any-update_false (is_queued id) _ db.jobs (λ j h. ground arith)

  claim_submission-claims : (now : ℕ) → IsTaken id db → (claim_submission id now db).0 ≡ false
  unfolding claim_submission is_queued is_status has_id
  claim_submission-claims now h = h

  store_submitted-IsTaken :
      (tx : String) (now : ℕ) → IsTaken id db → IsTaken id (store_submitted id tx now db).1
  unfolding store_submitted is_queued is_status has_id
  store_submitted-IsTaken tx now h = any-update_where _ (is_queued id) _ (λ j. refl) db.jobs ∙ h

  fail_submission-IsTaken :
      (error : String) (now : ℕ) → IsTaken id db → IsTaken id (fail_submission id error now db).1
  unfolding fail_submission is_queued is_status has_id any update_where
  fail_submission-IsTaken error now h = go db.jobs h
    where
      go :
          (js : List TxJob)
          → any (is_queued id) js ≡ false
          → any (is_queued id) (
              update_where
                (has_id id)
                (λ j. record j { status = failed; last_error = some error; updated_at = now })
                js)
            ≡ false
      go [] k = refl
      go (j ∷ js) k = ground (arith, go js)

Step-IsExclusive : {id : ℕ} {s t : System} → Step id s t → IsExclusive id s → IsExclusive id t
Step-IsExclusive {id} (merge {s} i maker entry now before) e =
    let m = (merge_entry id maker entry now s.db).0 in
    move-IsExclusive id e i (after_merging m) _ (after_merging-claims_nothing m ∙ rw before refl)
      (merge_entry-IsTaken id s.db maker entry now) (after_merging-IsReady m)
Step-IsExclusive {id} (claim {s} i p now before) e =
    let both : has_both p ≡ true = subst IsReady before (e.ready i) in
    elim (Bool-cases (claim_submission id now s.db).0) [
      | inl won ↦ rw won (
          win-IsExclusive id i p _ e
            (λ j q h. cc (won, claim_submission-claims id s.db now (e.taken j q h)))
            (claim_submission-IsTaken id s.db now) both)
      | inr lost ↦ rw lost (
          move-IsExclusive id e i over _ (rw before refl)
            (λ h. claim_submission-IsTaken id s.db now) tt)
    ]
Step-IsExclusive {id} (store {s} i p tx now before) e =
    move-IsExclusive id e i (sent p) _ (rw before refl) (store_submitted-IsTaken id s.db tx now)
      (subst IsReady before (e.ready i))
Step-IsExclusive {id} (fail {s} i p error now before) e =
    move-IsExclusive id e i (sent p) _ (rw before refl) (fail_submission-IsTaken id s.db error now)
      (subst IsReady before (e.ready i))
Step-IsExclusive (elsewhere db keeps) e = record {
  alone = e.alone;
  taken = λ i p h. keeps (e.taken i p h);
  ready = e.ready;
}

signing-claims_nothing : (phase : Phase) → IsSigning phase → claimed_payload phase ≡ none
signing-claims_nothing (signing maker entry) h = refl
signing-claims_nothing over h = refl
signing-claims_nothing (claiming p) h = absurd h
signing-claims_nothing (holding p) h = absurd h
signing-claims_nothing (sent p) h = absurd h

signing-IsReady : (phase : Phase) → IsSigning phase → IsReady phase
signing-IsReady (signing maker entry) h = tt
signing-IsReady over h = tt
signing-IsReady (claiming p) h = absurd h
signing-IsReady (holding p) h = absurd h
signing-IsReady (sent p) h = absurd h

IsStart-IsExclusive : (id : ℕ) (s : System) → IsStart s → IsExclusive id s
IsStart-IsExclusive id s start =
    let nothing = λ (i : ℕ). signing-claims_nothing (s.requests i) (start i) in
    record {
      alone = λ i j p q h m. cc (h, nothing i);
      taken = λ i p h. cc (h, nothing i);
      ready = λ i. signing-IsReady (s.requests i) (start i);
    }

Reach-IsExclusive : {id : ℕ} {s t : System} → IsExclusive id s → Reach id s t → IsExclusive id t
Reach-IsExclusive e here = e
Reach-IsExclusive e (next r step) = Step-IsExclusive step (Reach-IsExclusive e r)

ready_holder :
    (phase : Phase) (p : JobPayload)
    → claimed_payload phase ≡ some p
    → IsReady phase
    → has_both p ≡ true
ready_holder (holding q) p h r = let same : q ≡ p = cc in subst (λ x. has_both x ≡ true) same r
ready_holder (sent q) p h r = let same : q ≡ p = cc in subst (λ x. has_both x ≡ true) same r
ready_holder (claiming q) p h r = cc
ready_holder (signing maker entry) p h r = cc
ready_holder over p h r = cc

-- However the statements of any number of requests to sign one settlement interleave, with writes of other
-- services between them that do not queue the job again, at most one request ever holds the claim to submit
-- it, and the payload that it submits has the entries of both parties.
pub Reach-alone :
    (id : ℕ) (s t : System)
    → IsStart s
    → Reach id s t
    → (i j : ℕ) (p q : JobPayload) → Holds t i p
    → Holds t j q
    → (i ≡ j) × (has_both p ≡ true)
Reach-alone id s t start r i j p q h k =
    let e = Reach-IsExclusive (IsStart-IsExclusive id s start) r in
    (e.alone i j p q h k, ready_holder (t.requests i) p h (e.ready i))
