-- ===== src/Monitor/Reminded.antt =====
-- A check that fails has had an alert of it within the hour, and none since that it has healed.
use kryon.Common.{
  ℕ, ◌<◌, ◌+◌, ◌≡◌, refl, sym, ap, subst, ◌∙◌, inl, inr, String, false, Option, none, some, List,
  [], ◌∷◌, ◌++◌, str_eq, keep, In, In-keep, eq_iff,
}
use mathlib.Core.List.{append-nil, append_assoc}
use kryon.Monitor.{
  CheckResult, Alert, process_alerts, run_alerts, alert_reminder_ms, name_of, post_alerts, content,
}
use kryon.Monitor.Watched.{process_alerts-seen, run_alerts-watched}
use kryon.Monitor.Watch.{Outage, watch_all, watch_run}
use kryon.Monitor.Outages.{
  IsFailure, EndsWith, EndsWith-In, EndsWith-append, EndsWith-nil, watch_all-alerted, watch-recent,
}

abbrev pub results_of : String → List CheckResult → List CheckResult
results_of name results = keep (λ r. str_eq r.name name) results

abbrev outage : String → List (ℕ × List CheckResult) → Option Outage
outage name runs = (watch_run name runs none).0

-- A call at the time has made the watch of the name post an alert of a failure, the latest of all.
record HasPosted (name : String) (runs : List (ℕ × List CheckResult)) (time : ℕ) : Type 0 where
  pub before : List (ℕ × List CheckResult)
  pub results : List CheckResult
  pub after : List (ℕ × List CheckResult)
  pub called : runs ≡ before ++ (time, results) ∷ after
  pub alert : Alert
  pub of_failure : IsFailure alert
  pub posted : In alert (watch_all time (results_of name results) (outage name before)).1
  pub latest : EndsWith alert (watch_run name runs none).1

outage-snoc :
    (name : String) (runs : List (ℕ × List CheckResult)) (now : ℕ) (results : List CheckResult)
    (o : Option Outage)
    → (watch_run name (runs ++ (now, results) ∷ []) o).0
      ≡ (watch_all now (results_of name results) (watch_run name runs o).0).0
unfolding watch_run
outage-snoc name [] now results o = refl
outage-snoc name ((t, rs) ∷ rest) now results o =
    outage-snoc name rest now results (watch_all t (results_of name rs) o).0

alerts-snoc :
    (name : String) (runs : List (ℕ × List CheckResult)) (now : ℕ) (results : List CheckResult)
    (o : Option Outage)
    → (watch_run name (runs ++ (now, results) ∷ []) o).1
      ≡ (watch_run name runs o).1
        ++ (watch_all now (results_of name results) (watch_run name runs o).0).1
unfolding watch_run
alerts-snoc name [] now results o = append-nil _
alerts-snoc name ((t, rs) ∷ rest) now results o =
    let (next, posted) = watch_all t (results_of name rs) o in
    ap (λ xs. posted ++ xs) (alerts-snoc name rest now results next)
    ∙ sym (append_assoc posted (watch_run name rest next).1 _)

module _ (name : String) where
  -- Every outage after the calls has had its alert in one of them.
  Alerted : List (ℕ × List CheckResult) → Type 0
  Alerted runs = (o : Outage) → outage name runs ≡ some o → HasPosted name runs o.alerted

  Alerted-snoc :
      (runs : List (ℕ × List CheckResult)) (now : ℕ) (results : List CheckResult)
      → Alerted runs
      → Alerted (runs ++ (now, results) ∷ [])
  unfolding Alerted
  Alerted-snoc runs now results ih o h =
      let split = alerts-snoc name runs now results none in
      elim (watch_all-alerted now (results_of name results) (outage name runs) o
        (sym (outage-snoc name runs now results none) ∙ h)) [
          | inl (e, (a, failure, ends)) ↦ record {
            before = runs;
            results = results;
            after = [];
            called = ap (λ t. runs ++ (t, results) ∷ []) (sym e);
            alert = a;
            of_failure = failure;
            posted = rw e (EndsWith-In a _ ends);
            latest = rw split (EndsWith-append a (watch_run name runs none).1 _ ends);
          }
          | inr (was, silent) ↦
              let old = ih o was in
              record {
                before = old.before;
                results = old.results;
                after = old.after ++ (now, results) ∷ [];
                called =
                    ap (λ rs. rs ++ (now, results) ∷ []) old.called
                    ∙ append_assoc old.before ((o.alerted, old.results) ∷ old.after)
                        ((now, results) ∷ []);
                alert = old.alert;
                of_failure = old.of_failure;
                posted = old.posted;
                latest =
                    rw split
                      (EndsWith-nil old.alert (watch_run name runs none).1 _ silent old.latest);
              }
        ]

  Alerted-append : (runs rest : List (ℕ × List CheckResult)) → Alerted runs → Alerted (runs ++ rest)
  Alerted-append runs [] h = subst Alerted (sym (append-nil runs)) h
  Alerted-append runs ((now, results) ∷ rest) h =
      subst Alerted (append_assoc runs ((now, results) ∷ []) rest)
        (Alerted-append (runs ++ (now, results) ∷ []) rest (Alerted-snoc runs now results h))

-- A call at the time has given an alert that the check of the name fails, and the webhook got it as a request. It is
-- the latest alert of the name in all the calls: none says since then that the check has healed.
pub record HasAlerted (webhook name : String) (runs : List (ℕ × List CheckResult)) (time : ℕ)
    : Type 0 where
  pub before : List (ℕ × List CheckResult)
  pub results : List CheckResult
  pub after : List (ℕ × List CheckResult)
  pub called : runs ≡ before ++ (time, results) ∷ after
  pub alert : Alert
  pub of_failure : IsFailure alert
  pub named : name_of alert ≡ name
  pub requested :
      In
        (content alert)
        (post_alerts (some webhook) (process_alerts time results (run_alerts before []).0).1)
  pub latest : EndsWith alert (keep (λ a. str_eq (name_of a) name) (run_alerts runs []).1)

post_alerts-In :
    (webhook : String) (a : Alert) (alerts : List Alert)
    → str_eq webhook "" ≡ false
    → In a alerts
    → In (content a) (post_alerts (some webhook) alerts)
unfolding post_alerts
post_alerts-In webhook a [] set i = absurd i
post_alerts-In webhook a (x ∷ xs) set (inl e) = rw set (inl (ap content e))
post_alerts-In webhook a (x ∷ xs) set (inr i) = rw set (inr (post_alerts-In webhook a xs set i))

HasPosted-HasAlerted :
    (webhook name : String) (runs : List (ℕ × List CheckResult)) (time : ℕ)
    → str_eq webhook "" ≡ false
    → HasPosted name runs time
    → HasAlerted webhook name runs time
HasPosted-HasAlerted webhook name runs time set h =
    let states = (run_alerts h.before []).0 in
    let there = ap (λ x. x.1) (process_alerts-seen name time h.results states) in
    let same = (run_alerts-watched name h.before).0 in
    let kept =
      subst (In h.alert)
        (sym (there ∙ ap (λ o. (watch_all time (results_of name h.results) o).1) same)) h.posted in
    let (posted, named) = In-keep (λ a. str_eq (name_of a) name) h.alert _ kept in
    record {
      before = h.before;
      results = h.results;
      after = h.after;
      called = h.called;
      alert = h.alert;
      of_failure = h.of_failure;
      named = (eq_iff _ _).0 named;
      requested = post_alerts-In webhook h.alert _ set posted;
      latest = subst (EndsWith h.alert) (sym (run_alerts-watched name runs).1) h.latest;
    }

-- When in the last of some calls of runChecks, the one at now, a check has one result and it is a failure, then one
-- of the calls, less than an hour before now, has given the latest alert of that check, and it is of a failure.
pub run_alerts-reminded :
    (webhook name : String) (runs : List (ℕ × List CheckResult)) (now : ℕ)
    (results : List CheckResult) (r : CheckResult)
    → str_eq webhook "" ≡ false
    → results_of name results ≡ r ∷ []
    → r.is_ok ≡ false
    → (time : ℕ) × (now < time + alert_reminder_ms)
      × HasAlerted webhook name (runs ++ (now, results) ∷ []) time
unfolding watch_all watch_run Alerted
run_alerts-reminded webhook name runs now results r set one bad =
    let (o, here, recent) = watch-recent now r (outage name runs) bad in
    let h =
      outage-snoc name runs now results none
      ∙ ap (λ rs. (watch_all now rs (outage name runs)).0) one
      ∙ here in
    let start : Alerted name [] = λ p e. cc e in
    (
      o.alerted,
      recent,
      HasPosted-HasAlerted webhook name _ o.alerted set
          (Alerted-append name [] (runs ++ (now, results) ∷ []) start o h),
    )
