-- ===== src/Oracle/Activity/Quiet.antt =====
-- What it means that client/lib/oracle-activity.ts finds no activity.
use kryon.Common.{
  ℕ, ◌≡◌, refl, sym, String, ◌<>◌, Bool, true, false, List, [], ◌∷◌, ◌++◌, if◌then◌else◌, any,
  arith,
}
use kryon.Database.Exec.{
  Reads, sql-Reads, World, Outcome, ok, thrown, Exec, sql_at, call, try_catch, ◌>>=◌,
}
use kryon.Oracle.Activity.{
  ActivityConfig, ActivityStatus, is_resting, is_pending, signal, order_question, job_question,
  has_deposits, db_signals, vault_deposits_signal, status_of, check_protocol_activity,
}

-- The reasons that a signal gives for the answer to its question
abbrev reasons_for : String → String → Outcome Bool → List String
reasons_for reason error (ok found) = if found then reason ∷ [] else []
reasons_for reason error (thrown e) = (error <> e) ∷ []

signal-answers :
    (reason error : String) (question : Exec Bool) (w : World)
    → signal reason error question w
      ≡ (ok (reasons_for reason error (question w).0), (question w).1)
unfolding signal try_catch ◌>>=◌
signal-answers reason error question w = ground arith

-- No reason: the answer was no.
quiet : (reason error : String) (r : Outcome Bool) → reasons_for reason error r ≡ [] → r ≡ ok false
quiet reason error (ok true) h = grind arith
quiet reason error (ok false) h = refl
quiet reason error (thrown e) h = grind arith

append_nil_left : (xs ys : List String) → xs ++ ys ≡ [] → (xs ≡ []) × (ys ≡ [])
append_nil_left [] ys h = (refl, h)
append_nil_left (x ∷ xs) ys h = grind arith

status-quiet : (rs : List String) → (status_of rs).active ≡ false → rs ≡ []
status-quiet [] h = refl
status-quiet (r ∷ rs) h = grind arith

-- The reasons that the four signals give, one after the other
abbrev reasons_at : ActivityConfig → World → World → World → List String
reasons_at c w v u =
    (reasons_for "open-orders" "order-check-error:" (order_question w).0
      ++ (reasons_for "pending-settlements" "txjob-check-error:" (job_question v).0
          ++ reasons_for "open-positions" "position-check-error:" (c.open_position u)))
    ++ reasons_for "vault-deposits" "vault-check-error:" (has_deposits (c.total_deposited u))

check-answers :
    (c : ActivityConfig) (w : World)
    → let v = (order_question w).1 in
      let u = (job_question v).1 in
      check_protocol_activity c w ≡ (ok (status_of (reasons_at c w v u)), u)
unfolding check_protocol_activity db_signals vault_deposits_signal ◌>>=◌ call
check-answers c w = rw (
  signal-answers "open-orders" "order-check-error:" order_question,
  signal-answers "pending-settlements" "txjob-check-error:" job_question,
  signal-answers "open-positions" "position-check-error:" (call c.open_position),
  signal-answers "vault-deposits" "vault-check-error:"
      (call (λ w. has_deposits (c.total_deposited w))),
)

no_deposits : (r : Outcome ℕ) → has_deposits r ≡ ok false → r ≡ ok 0
no_deposits (ok n) h = grind arith
no_deposits (thrown e) h = grind arith

order_question-Reads :
    (w : World) → Reads (λ db. any (is_resting w.now) db.orders) w (order_question w)
unfolding order_question sql_at
order_question-Reads w = sql-Reads (λ db. any (is_resting w.now) db.orders) w

job_question-Reads : (w : World) → Reads (λ db. any is_pending db.jobs) w (job_question w)
unfolding job_question
job_question-Reads w = sql-Reads (λ db. any is_pending db.jobs) w

-- What holds at the world of the last two questions where all four signals are silent.
pub record IsQuiet (c : ActivityConfig) (w u : World) : Type 0 where
  pub no_order : any (is_resting w.now) w.db.orders ≡ false
  pub no_job : any is_pending w.db.jobs ≡ false
  pub no_position : c.open_position u ≡ ok false
  pub no_deposit : c.total_deposited u ≡ ok 0

IsQuiet-signals :
    (c : ActivityConfig) (w : World)
    → let v = (order_question w).1 in
      let u = (job_question v).1 in reasons_at c w v u ≡ [] → IsQuiet c w u
IsQuiet-signals c w h =
    let v = (order_question w).1 in
    let u = (job_question v).1 in
    let (db, vault) = append_nil_left _ _ h in
    let (orders, others) = append_nil_left _ _ db in
    let (jobs, positions) = append_nil_left _ _ others in
    let reads = order_question-Reads w in
    let again = job_question-Reads v in
    record {
      no_order = reads.1 false (quiet "open-orders" "order-check-error:" _ orders);
      no_job =
          rw (sym reads.0)
            (again.1 false (quiet "pending-settlements" "txjob-check-error:" _ jobs));
      no_position = quiet "open-positions" "position-check-error:" _ positions;
      no_deposit = no_deposits _ (quiet "vault-deposits" "vault-check-error:" _ vault);
    }

-- The check always answers, and when it answers that the exchange is not active, it has read that no order
-- rests, no job waits, no position is open and the vault holds nothing. A question that throws never counts as
-- answered no.
pub check_protocol_activity-IsQuiet :
    (c : ActivityConfig) (w : World)
    → let (r, u) = check_protocol_activity c w in
      (status : ActivityStatus) × (r ≡ ok status) × (status.active ≡ false → IsQuiet c w u)
check_protocol_activity-IsQuiet c w =
    rw (check-answers c w) (_, refl, λ h. IsQuiet-signals c w (status-quiet _ h))
