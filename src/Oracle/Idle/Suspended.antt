-- ===== src/Oracle/Idle/Suspended.antt =====
-- What holds on the exchange while the oracle keeper does not publish.
use kryon.Common.{
  ℕ, ◌+◌, ◌*◌, ◌≤◌, ◌<◌, ◌≡◌, refl, sym, ap, ◌∙◌, ◌⊎◌, inl, inr, Bool, false, Option, none, some,
  Bool-cases, arith, leb, if◌then◌else◌,
}
use kryon.Database.Exec.{World, ok, ◌>>=◌}
use kryon.Oracle.{OracleConfig}
use kryon.Oracle.Activity.{ActivityConfig, ActivityStatus, check_protocol_activity}
use kryon.Oracle.Activity.Quiet.{IsQuiet, check_protocol_activity-IsQuiet}
use kryon.Oracle.Idle.{
  IdleState, date_now, boot, is_check_due, after_check, checked, decide, is_publishing_needed,
}

-- The world of the latest check, after a call of `isPublishingNeeded`
abbrev pub latest_check : OracleConfig → IdleState → Option World → World → Option World
latest_check c s v w = if is_check_due c (date_now w) s then some w else v

-- The states of the keeper after calls of `isPublishingNeeded`, each with the world of its latest check.
pub data Run (c : OracleConfig) (a : ActivityConfig) : IdleState → Option World → Type 0 where
  booted : (now : ℕ) → Run c a (boot now) none
  polled :
      (s t : IdleState) (v : Option World) (w : World) (b : Bool)
      → Run c a s v
      → (is_publishing_needed c a s w).0 ≡ ok (b, t)
      → Run c a t (latest_check c s v w)

-- Nothing needed a price at the check that began in this world.
abbrev pub WasQuiet : ActivityConfig → World → Type 0
WasQuiet a w = IsQuiet a w (check_protocol_activity a w).1

-- What the times of the state tell of the latest check
Tracks : ActivityConfig → IdleState → Option World → Type 0
Tracks a s none = s.last_activity_check ≡ 0
Tracks a s (some v) =
    (s.last_activity_check ≡ date_now v) × ((s.last_active_at ≡ date_now v) ⊎ WasQuiet a v)

after_check-Tracks :
    (a : ActivityConfig) (s : IdleState) (w : World) (status : ActivityStatus)
    → (status.active ≡ false → WasQuiet a w)
    → Tracks a (after_check (date_now w) s status) (some w)
unfolding after_check Tracks
after_check-Tracks a s w status h = elim (Bool-cases status.active) [
  | inl on ↦ (refl, inl (rw on refl))
  | inr off ↦ (refl, inr (h off))
]

-- A state after `checked`, and how old its latest check is
abbrev IsTracked :
    OracleConfig → ActivityConfig → IdleState → Option World → World → IdleState → Type 0
IsTracked c a s v w t =
    ((checked c a s w).0 ≡ ok t)
    × Tracks a t (latest_check c s v w)
    × ((date_now w < t.last_activity_check + c.activity_check_interval_ms)
        ⊎ (date_now w ≡ t.last_activity_check))

checked-IsTracked :
    (c : OracleConfig) (a : ActivityConfig) (s : IdleState) (v : Option World) (w : World)
    → Tracks a s v
    → (t : IdleState) × IsTracked c a s v w t
unfolding checked is_check_due ◌>>=◌
checked-IsTracked c a s v w h =
    let (status, answered, silent) = check_protocol_activity-IsQuiet a w in
    elim (Bool-cases (leb (s.last_activity_check + c.activity_check_interval_ms) (date_now w))) [
      | inl due ↦
          rw (due, answered)
            (
              after_check (date_now w) s status,
              (refl, after_check-Tracks a s w status silent, inr refl),
            )
      | inr fresh ↦ rw fresh (s, (refl, h, inl (ground (arith, fresh))))
    ]

decide-Tracks :
    (c : OracleConfig) (a : ActivityConfig) (now : ℕ) (t : IdleState) (v : Option World)
    → Tracks a t v
    → Tracks a (decide c now t).1 v
unfolding decide Tracks
decide-Tracks c a now t none h = h
decide-Tracks c a now t (some v) h = h

-- A call of `isPublishingNeeded` answers by a checked state.
needed-checked :
    (c : OracleConfig) (a : ActivityConfig) (s t : IdleState) (w : World)
    → (checked c a s w).0 ≡ ok t
    → (is_publishing_needed c a s w).0 ≡ ok (decide c (date_now w) t)
unfolding is_publishing_needed ◌>>=◌
needed-checked c a s t w h = rw h refl

ok-injective : {A : Type 0} (x y : A) → ok x ≡ ok y → x ≡ y
ok-injective x y h = cc h

Run-Tracks :
    (c : OracleConfig) (a : ActivityConfig) (s : IdleState) (v : Option World)
    → Run c a s v
    → Tracks a s v
unfolding boot Tracks
Run-Tracks c a s v (booted now) = refl
Run-Tracks c a s v (polled s' t v' w b r h) =
    let (u, (done, tracks, age)) = checked-IsTracked c a s' v' w (Run-Tracks c a s' v' r) in
    let same = ok-injective _ _ (sym (needed-checked c a s' u w done) ∙ h) in
    rw (sym (ap (λ x. x.1) same)) (decide-Tracks c a (date_now w) u _ tracks)

-- Out of the grace, and not long after its latest check, the keeper has found nothing active.
late-quiet :
    (c : OracleConfig) (a : ActivityConfig) (now : ℕ) (t : IdleState) (v : Option World)
    → Tracks a t v
    → 0 < c.idle_grace_secs
    → c.activity_check_interval_ms ≤ c.idle_grace_secs * 1000
    → (now < t.last_activity_check + c.activity_check_interval_ms) ⊎ (now ≡ t.last_activity_check)
    → t.last_active_at + c.idle_grace_secs * 1000 ≤ now
    → 0 < now
    → (x : World) × (v ≡ some x) × (now ≤ date_now x + c.activity_check_interval_ms) × WasQuiet a x
unfolding Tracks
late-quiet c a now t none h grace short age late positive = absurd (ground arith)
late-quiet c a now t (some x) (same, inl e) grace short age late positive = absurd (ground arith)
late-quiet c a now t (some x) (same, inr q) grace short age late positive =
    (x, refl, ground arith, q)

decide-late :
    (c : OracleConfig) (now : ℕ) (t : IdleState)
    → (decide c now t).0 ≡ false
    → t.last_active_at + c.idle_grace_secs * 1000 ≤ now
unfolding decide
decide-late c now t h = ground arith

-- When a call of `isPublishingNeeded` of a keeper answers no, with a positive grace that is at least as long as
-- the interval of the checks, then the latest check of the exchange found nothing that needs a price, and it is
-- not older than that interval.
pub Run-suspended :
    (c : OracleConfig) (a : ActivityConfig) (s t : IdleState) (v : Option World) (w : World)
    → Run c a s v
    → 0 < c.idle_grace_secs
    → c.activity_check_interval_ms ≤ c.idle_grace_secs * 1000
    → (is_publishing_needed c a s w).0 ≡ ok (false, t)
    → (x : World) × (latest_check c s v w ≡ some x)
      × (date_now w ≤ date_now x + c.activity_check_interval_ms)
      × WasQuiet a x
Run-suspended c a s t v w run grace short h =
    let (u, (done, tracks, age)) = checked-IsTracked c a s v w (Run-Tracks c a s v run) in
    let same = ok-injective _ _ (sym (needed-checked c a s u w done) ∙ h) in
    let late = decide-late c (date_now w) u (ap (λ x. x.0) same) in
    late-quiet c a (date_now w) u _ tracks grace short age late (ground (arith, late))
