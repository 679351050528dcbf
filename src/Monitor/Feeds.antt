-- ===== src/Monitor/Feeds.antt =====
-- When the check of the oracle feeds passes, and what happens when it does not.
use kryon.Common.{
  ℕ, zero, suc, ◌≤◌, ◌<◌, ◌+◌, ◌≡◌, ◌≢◌, ◌↔◌, refl, ap, ◌∙◌, ◌⊎◌, inl, inr, String, Bool, true,
  false, none, some, List, [], ◌∷◌, ltb, ◌<>◌, ◌++◌, if◌then◌else◌, arith, Bool-cases, In, All,
  All-at, str_eq, keep, All-intro,
}
use kryon.Database.Exec.{Outcome, ok, thrown}
use kryon.Oracle.Activity.{ActivityStatus}
use kryon.Monitor.{CheckResult, alert_reminder_ms}
use kryon.Monitor.Checks.{
  MonitoredMarket, MonitorConfig, MonitorAnswers, PriceSimulation, sim_failed, no_value, snapshot,
  timed, Verdict, healthy, problem, add_verdict, collect, age_secs, on_activity, on_published,
  on_price, feed_verdict, feeds_text, check_oracle_freshness,
}
use kryon.Monitor.Round.{check_results}
use kryon.Monitor.Reminded.{HasAlerted, results_of, run_alerts-reminded}

abbrev pub IsHealthy : {A : Type 0} → (A → Outcome Verdict) → A → Type 0
IsHealthy verdict x = (t : String) × (verdict x ≡ ok (healthy t))

module _ {A : Type 0} (verdict : A → Outcome Verdict) where
  add_verdict-healthy :
      (v : Outcome Verdict) (rest : Outcome (List String × List String)) (results : List String)
      → add_verdict v rest ≡ ok (results, [])
      → ((t : String) × (v ≡ ok (healthy t))) × ((others : List String) × (rest ≡ ok (others, [])))
  add_verdict-healthy (thrown e) rest results h = absurd (ground (arith, h))
  add_verdict-healthy (ok (healthy t)) (thrown e) results h = absurd (ground (arith, h))
  add_verdict-healthy (ok (problem t)) (thrown e) results h = absurd (ground (arith, h))
  add_verdict-healthy (ok (healthy t)) (ok (others, ps)) results h =
      ((t, refl), (others, ground (arith, h)))
  add_verdict-healthy (ok (problem t)) (ok (others, ps)) results h = absurd (ground (arith, h))

  -- A loop has no problem exactly when each of its items is healthy.
  pub collect-IsHealthy :
      (xs : List A) (results : List String)
      → collect verdict xs ≡ ok (results, [])
      → All (IsHealthy verdict) xs
  unfolding collect
  collect-IsHealthy [] results h = tt
  collect-IsHealthy (x ∷ rest) results h =
      let (here, (others, e)) = add_verdict-healthy (verdict x) (collect verdict rest) results h in
      (here, collect-IsHealthy rest others e)

  pub healthy-collect :
      (xs : List A)
      → All (IsHealthy verdict) xs
      → (results : List String) × (collect verdict xs ≡ ok (results, []))
  unfolding collect
  healthy-collect [] h = ([], refl)
  healthy-collect (x ∷ rest) ((t, here), h) =
      let (results, e) = healthy-collect rest h in (t ∷ results, rw (here, e) refl)

if-healthy :
    (b : Bool) (x : Outcome Verdict) (t : String)
    → (b ≡ false) ⊎ ((u : String) × (x ≡ ok (healthy u)))
    → (u : String) × ((if b then x else ok (healthy t)) ≡ ok (healthy u))
if-healthy false x t h = (t, refl)
if-healthy true x t (inl e) = cc e
if-healthy true x t (inr h) = h

-- The feed of a market has a price with the time of its publication, which is not older than the limit, unless the
-- exchange needs no price.
pub record IsFresh (c : MonitorConfig) (a : MonitorAnswers) (m : MonitoredMarket) : Type 0 where
  pub publish_time : ℕ
  pub published : publish_time ≢ 0
  pub answered : a.get_price m ≡ ok (snapshot (some publish_time))
  pub in_time :
      (age_secs (a.oracle_now m) publish_time ≤ c.oracle_max_age_secs)
      ⊎ ((s : ActivityStatus) × (a.activity m ≡ ok s) × (s.active ≡ false))

module _ (c : MonitorConfig) (a : MonitorAnswers) (m : MonitoredMarket) where
  healthy-activity :
      (age t : String) (r : Outcome ActivityStatus)
      → on_activity c m age r ≡ ok (healthy t)
      → (s : ActivityStatus) × (r ≡ ok s) × (s.active ≡ false)
  healthy-activity age t (thrown e) h = absurd (ground (arith, h))
  healthy-activity age t (ok s) h = elim (Bool-cases s.active) [
    | inl on ↦ absurd (ground (arith, on, h))
    | inr off ↦ (s, refl, off)
  ]

  healthy-published :
      (p : ℕ) (t : String)
      → on_published c a m p ≡ ok (healthy t)
      → (p ≢ 0)
        × ((age_secs (a.oracle_now m) p ≤ c.oracle_max_age_secs)
            ⊎ ((s : ActivityStatus) × (a.activity m ≡ ok s) × (s.active ≡ false)))
  healthy-published zero t h = absurd (ground (arith, h))
  healthy-published (suc p) t h =
      elim (Bool-cases (ltb c.oracle_max_age_secs (age_secs (a.oracle_now m) (suc p)))) [
        | inl old ↦ (omega arith, inr (healthy-activity _ t (a.activity m) (rw old at h)))
        | inr young ↦ (omega arith, inl (ground (arith, young)))
      ]

  healthy-IsFresh :
      (t : String) (r : Outcome PriceSimulation)
      → a.get_price m ≡ r
      → on_price c a m r ≡ ok (healthy t)
      → IsFresh c a m
  healthy-IsFresh t (thrown e) q h = absurd (ground (arith, h))
  healthy-IsFresh t (ok (sim_failed e)) q h = absurd (ground (arith, h))
  healthy-IsFresh t (ok no_value) q h = absurd (ground (arith, h))
  healthy-IsFresh t (ok (snapshot none)) q h = absurd (ground (arith, h))
  healthy-IsFresh t (ok (snapshot (some p))) q h =
      let (published, in_time) = healthy-published p t h in
      record { publish_time = p; published = published; answered = q; in_time = in_time }

  idle-healthy :
      (age : String) (s : ActivityStatus)
      → s.active ≡ false
      → (t : String) × (on_activity c m age (ok s) ≡ ok (healthy t))
  idle-healthy age s off =
      (m.oracle_symbol <> "=idle (" <> age <> "s old, publishing suspended)", rw off refl)

  IsFresh-published :
      (p : ℕ)
      → p ≢ 0
      → (age_secs (a.oracle_now m) p ≤ c.oracle_max_age_secs)
        ⊎ ((s : ActivityStatus) × (a.activity m ≡ ok s) × (s.active ≡ false))
      → (t : String) × (on_published c a m p ≡ ok (healthy t))
  IsFresh-published zero h k = absurd (h refl)
  IsFresh-published (suc p) h (inl young) =
      if-healthy (ltb c.oracle_max_age_secs (age_secs (a.oracle_now m) (suc p))) _ _
        (inl (ground (arith, young)))
  IsFresh-published (suc p) h (inr (s, answer, off)) =
      if-healthy (ltb c.oracle_max_age_secs (age_secs (a.oracle_now m) (suc p))) _ _
        (inr (rw answer (idle-healthy _ s off)))

  IsFresh-IsHealthy : IsFresh c a m → IsHealthy (feed_verdict c a) m
  unfolding feed_verdict
  IsFresh-IsHealthy f =
      let (t, e) = IsFresh-published f.publish_time f.published f.in_time in (t, rw f.answered e)

module _ (c : MonitorConfig) (a : MonitorAnswers) where
  feeds_text-ok :
      (r : Outcome (List String × List String)) (detail : String)
      → feeds_text c r ≡ ok detail
      → (results : List String) × (r ≡ ok (results, []))
  feeds_text-ok (thrown e) detail h = absurd (ground (arith, h))
  feeds_text-ok (ok (results, [])) detail h = (results, refl)
  feeds_text-ok (ok (results, p ∷ ps)) detail h = absurd (ground (arith, h))

  -- The check of the oracle passes exactly when the feed of every market is fresh, or the exchange is idle where it is
  -- not: a feed that cannot be read, or an activity check that throws, is never passed over.
  pub check_oracle_freshness-IsFresh :
      ((detail : String) × (check_oracle_freshness c a ≡ ok detail)) ↔ All (IsFresh c a) c.markets
  unfolding check_oracle_freshness
  check_oracle_freshness-IsFresh = (
    λ (detail, h).
        let (results, e) = feeds_text-ok (collect (feed_verdict c a) c.markets) detail h in
        let each = collect-IsHealthy (feed_verdict c a) c.markets results e in
        All-intro (IsFresh c a) c.markets (λ m there.
          let (t, q) = All-at (IsHealthy (feed_verdict c a)) m c.markets each there in
          healthy-IsFresh c a m t (a.get_price m) refl (unfold feed_verdict in q)),
    λ all.
        let each =
          All-intro (IsHealthy (feed_verdict c a)) c.markets
            (λ m there. IsFresh-IsHealthy c a m (All-at (IsFresh c a) m c.markets all there)) in
        let (results, e) = healthy-collect (feed_verdict c a) c.markets each in
        (_, ap (feeds_text c) e),
  )

  skip_check :
      (name other : String) (r : Outcome String) (rest : List CheckResult)
      → str_eq other name ≡ false
      → results_of name (timed other r ∷ rest) ≡ results_of name rest
  unfolding timed keep
  skip_check name other (ok t) rest h = rw h refl
  skip_check name other (thrown e) rest h = rw h refl

  take_check :
      (name : String) (r : Outcome String) (rest : List CheckResult)
      → str_eq name name ≡ true
      → results_of name rest ≡ []
      → results_of name (timed name r ∷ rest) ≡ timed name r ∷ []
  unfolding timed keep
  take_check name (ok t) rest h e = rw h (ap (λ xs. timed name (ok t) ∷ xs) e)
  take_check name (thrown t) rest h e = rw h (ap (λ xs. timed name (thrown t) ∷ xs) e)

  no_check : (name : String) → results_of name [] ≡ []
  unfolding keep
  no_check name = refl

  oracle_result :
      results_of "oracle-freshness" (check_results c a)
      ≡ timed "oracle-freshness" (check_oracle_freshness c a) ∷ []
  unfolding check_results
  oracle_result =
      let name : String = "oracle-freshness" in
      skip_check name "db-latency" _ _ refl
      ∙ take_check name _ _ refl (
          skip_check name "matcher-lag" _ _ refl
          ∙ skip_check name "indexer-lag" _ _ refl
          ∙ skip_check name "app-health" _ _ refl
          ∙ skip_check name "websocket" _ _ refl
          ∙ skip_check name "operator-funds" _ _ refl
          ∙ skip_check name "funding-accrual" _ _ refl
          ∙ skip_check name "insurance-cover" _ _ refl
          ∙ no_check name)

  -- When ALERT_WEBHOOK_URL is set, and at a call of runChecks, after any calls before it, the feed of a market is not
  -- fresh and the exchange not idle, then in that call, or in one less than an hour before it, the monitor has sent the
  -- webhook an alert that the oracle check fails or still fails, and that is the latest alert of the check: none says
  -- since then that it has healed. The request may fail, as the monitor takes no notice of its answer.
  pub stale_feed-alerted :
      (webhook : String) (runs : List (ℕ × List CheckResult)) (now : ℕ) (m : MonitoredMarket)
      → str_eq webhook "" ≡ false
      → In m c.markets
      → (IsFresh c a m → ⊥)
      → (time : ℕ) × (now < time + alert_reminder_ms)
        × HasAlerted webhook "oracle-freshness" (runs ++ (now, check_results c a) ∷ []) time
  stale_feed-alerted webhook runs now m set there stale =
      by_outcome (check_oracle_freshness c a) refl
    where
      by_outcome :
          (r : Outcome String)
          → check_oracle_freshness c a ≡ r
          → (time : ℕ) × (now < time + alert_reminder_ms)
            × HasAlerted webhook "oracle-freshness" (runs ++ (now, check_results c a) ∷ []) time
      by_outcome (ok detail) e = absurd (
          stale
            (All-at (IsFresh c a) m c.markets (check_oracle_freshness-IsFresh.0 (detail, e)) there))
      by_outcome (thrown f) e =
          run_alerts-reminded webhook "oracle-freshness" runs now (check_results c a)
            (timed "oracle-freshness" (thrown f)) set
            (oracle_result ∙ ap (λ r. timed "oracle-freshness" r ∷ []) e) (unfold timed in refl)
