-- ===== src/Monitor/Watched.antt =====
-- The alerts of each check are those of its own watch: the map of the states keeps the checks apart.
use kryon.Common.{
  get_key, set_key, delete_key, str_eq_refl, get_key-set_key, get_key-set_key_other,
  get_key-delete_key, get_key-delete_key_other, ℕ, ◌≡◌, refl, ap, subst, String, Bool, true, false,
  not, Option, none, some, List, [], ◌∷◌, ◌++◌, str_eq, keep, if◌then◌else◌, arith, eq_iff,
  Bool-cases, inl, inr,
}
use kryon.Monitor.{
  CheckResult, AlertState, AlertStates, Alert, Alerting, name_of, started, on_failure, on_success,
  process_result, process_alerts, run_alerts, alert_reminder_ms,
}
use kryon.Monitor.Watch.{Outage, watch, watch_all, watch_run}

-- What a state says of the check
unfoldable pub view : Option AlertState → Option Outage
view none = none
view (some s) =
    if s.failing then some (record { since = s.since; alerted = s.last_alert_at }) else none

-- The state of a name and the alerts of that name
abbrev pub seen : String → Alerting → Option Outage × List Alert
seen name (states, alerts) =
    (view (get_key name states), keep (λ a. str_eq (name_of a) name) alerts)

own_result :
    (now : ℕ) (r : CheckResult) (states : AlertStates)
    → seen r.name (process_result now r states) ≡ watch now r (view (get_key r.name states))
unfolding process_result watch view keep alert_reminder_ms
own_result now r states =
    by_state (get_key r.name states) refl (str_eq_refl r.name)
      (λ s. get_key-set_key r.name s states) (get_key-delete_key r.name states)
  where
    by_state :
        (o : Option AlertState)
        → get_key r.name states ≡ o
        → str_eq r.name r.name ≡ true
        → ((s : AlertState) → get_key r.name (set_key r.name s states) ≡ some s)
        → get_key r.name (delete_key r.name states) ≡ none
        → seen r.name (if not r.is_ok then on_failure now r o states else on_success now r o states)
          ≡ watch now r (view o)
    by_state none e same set delete = ground (arith, set (started now r))
    by_state (some prev) e same set delete = ground (
      arith,
      set (started now r),
      set (record prev { last_alert_at = now; last_detail = r.detail }),
      set (record prev { last_detail = r.detail }),
    )

other_result :
    (name : String) (now : ℕ) (r : CheckResult) (states : AlertStates)
    → str_eq r.name name ≡ false
    → seen name (process_result now r states) ≡ (view (get_key name states), [])
unfolding process_result keep alert_reminder_ms
other_result name now r states h =
    by_state (get_key r.name states) (λ s. get_key-set_key_other name r.name s states h)
      (get_key-delete_key_other name r.name states h)
  where
    by_state :
        (o : Option AlertState)
        → ((s : AlertState) → get_key name (set_key r.name s states) ≡ get_key name states)
        → get_key name (delete_key r.name states) ≡ get_key name states
        → seen name (if not r.is_ok then on_failure now r o states else on_success now r o states)
          ≡ (view (get_key name states), [])
    by_state none set delete = ground (arith, set (started now r))
    by_state (some prev) set delete = ground (
      arith,
      set (started now r),
      set (record prev { last_alert_at = now; last_detail = r.detail }),
      set (record prev { last_detail = r.detail }),
    )

keep-append : (p : Alert → Bool) (xs ys : List Alert) → keep p (xs ++ ys) ≡ keep p xs ++ keep p ys
unfolding keep
keep-append p [] ys = refl
keep-append p (x ∷ xs) ys = ground (arith, keep-append p xs ys)

pub process_alerts-seen :
    (name : String) (now : ℕ) (results : List CheckResult) (states : AlertStates)
    → seen name (process_alerts now results states)
      ≡ watch_all now (keep (λ r. str_eq r.name name) results) (view (get_key name states))
unfolding process_alerts watch_all keep
process_alerts-seen name now [] states = refl
process_alerts-seen name now (r ∷ rest) states =
    let next = process_result now r states in
    let ih = process_alerts-seen name now rest next.0 in
    let split =
      keep-append (λ a. str_eq (name_of a) name) next.1 (process_alerts now rest next.0).1 in
    elim (Bool-cases (str_eq r.name name)) [
      | inl own ↦
          let same : r.name ≡ name = ground (arith, own, eq_iff r.name name) in
          let here =
            subst (λ n. seen n next ≡ watch now r (view (get_key n states))) same
              (own_result now r states) in
          rw (own, split, ← here)
            (ap (λ x. (x.0, keep (λ a. str_eq (name_of a) name) next.1 ++ x.1)) ih)
      | inr other ↦
          let there = other_result name now r states other in
          rw (other, split, ap (λ x. x.1) there, ← ap (λ x. x.0) there) ih
    ]

run_alerts-seen :
    (name : String) (runs : List (ℕ × List CheckResult)) (states : AlertStates)
    → seen name (run_alerts runs states) ≡ watch_run name runs (view (get_key name states))
unfolding run_alerts watch_run
run_alerts-seen name [] states = unfold keep in refl
run_alerts-seen name ((now, results) ∷ rest) states =
    let next = process_alerts now results states in
    let here = process_alerts-seen name now results states in
    let ih = run_alerts-seen name rest next.0 in
    let split = keep-append (λ a. str_eq (name_of a) name) next.1 (run_alerts rest next.0).1 in
    rw (split, ← here) (ap (λ x. (x.0, keep (λ a. str_eq (name_of a) name) next.1 ++ x.1)) ih)

-- Over any calls of runChecks, one after the other from the start on, whatever their results and times: the alerts of a
-- name, and whether the monitor takes it as failing, since when and alerted when, are those of a watch that sees only
-- its results.
pub run_alerts-watched :
    (name : String) (runs : List (ℕ × List CheckResult))
    → let (states, alerts) = run_alerts runs [] in
      let (outage, watched) = watch_run name runs none in
      (view (get_key name states) ≡ outage) × (keep (λ a. str_eq (name_of a) name) alerts ≡ watched)
unfolding get_key view
run_alerts-watched name runs =
    let e = run_alerts-seen name runs [] in (ap (λ x. x.0) e, ap (λ x. x.1) e)
