-- ===== src/Monitor/Outages.antt =====
-- The latest alert of an outage, and how old it can be.
use kryon.Common.{
  ℕ, ◌<◌, ◌+◌, ◌≡◌, refl, sym, ap, ◌∙◌, ◌⊎◌, inl, inr, false, Option, none, some, List, [], ◌∷◌,
  ◌++◌, leb, arith, Bool-cases, In, In-append_right,
}
use mathlib.Core.List.{append-nil, append_assoc}
use kryon.Monitor.{CheckResult, Alert, failing, still_failing, recovered, alert_reminder_ms}
use kryon.Monitor.Watch.{Outage, watch, watch_all}

-- The alert says that the check fails or still fails.
abbrev pub IsFailure : Alert → Type 0
IsFailure (failing name detail) = Unit {0}
IsFailure (still_failing name since now detail) = Unit {0}
IsFailure (recovered name since now detail) = ⊥

-- The latest of the alerts is this one.
abbrev pub EndsWith : Alert → List Alert → Type 0
EndsWith a alerts = (earlier : List Alert) × (alerts ≡ earlier ++ a ∷ [])

pub EndsWith-In : (a : Alert) (alerts : List Alert) → EndsWith a alerts → In a alerts
EndsWith-In a alerts (earlier, e) = rw e (In-append_right a earlier (a ∷ []) (inl refl))

pub EndsWith-append : (a : Alert) (xs ys : List Alert) → EndsWith a ys → EndsWith a (xs ++ ys)
EndsWith-append a xs ys (earlier, e) =
    (xs ++ earlier, ap (λ zs. xs ++ zs) e ∙ sym (append_assoc xs earlier (a ∷ [])))

pub EndsWith-nil :
    (a : Alert) (xs ys : List Alert) → ys ≡ [] → EndsWith a xs → EndsWith a (xs ++ ys)
EndsWith-nil a xs ys e h = rw (e, append-nil) h

-- What results leave of an outage: its alert is the latest of theirs, or it was there and they gave none.
abbrev pub Moves : ℕ → Option Outage → Outage → List Alert → Type 0
Moves now p q alerts =
    ((q.alerted ≡ now) × ((a : Alert) × IsFailure a × EndsWith a alerts))
    ⊎ ((p ≡ some q) × (alerts ≡ []))

watch-alerted :
    (now : ℕ) (r : CheckResult) (p : Option Outage) (q : Outage)
    → (watch now r p).0 ≡ some q
    → Moves now p q (watch now r p).1
unfolding watch
watch-alerted now r none q h = elim (Bool-cases r.is_ok) [
  | inl good ↦ absurd (ground (arith, good, h))
  | inr bad ↦ rw bad (inl (ground (arith, bad, h), (_, tt, ([], refl))))
]
watch-alerted now r (some o) q h = elim (Bool-cases r.is_ok) [
  | inl good ↦ absurd (ground (arith, good, h))
  | inr bad ↦ elim (Bool-cases (leb (o.alerted + alert_reminder_ms) now)) [
    | inl due ↦ rw (bad, due) (inl (ground (arith, bad, due, h), (_, tt, ([], refl))))
    | inr early ↦ rw (bad, early) (inr (ground (arith, bad, early, h), refl))
  ]
]

pub watch_all-alerted :
    (now : ℕ) (rs : List CheckResult) (p : Option Outage) (o : Outage)
    → (watch_all now rs p).0 ≡ some o
    → Moves now p o (watch_all now rs p).1
unfolding watch_all
watch_all-alerted now [] p o h = inr (h, refl)
watch_all-alerted now (r ∷ rest) p o h =
    let first = watch now r p in
    elim (watch_all-alerted now rest first.0 o h) [
      | inl (e, (a, failure, ends)) ↦ inl (e, (a, failure, EndsWith-append a first.1 _ ends))
      | inr (kept, silent) ↦ elim (watch-alerted now r p o kept) [
        | inl (e, (a, failure, ends)) ↦ inl (e, (a, failure, EndsWith-nil a first.1 _ silent ends))
        | inr (was, quiet) ↦ inr (was, rw (silent, quiet) refl)
      ]
    ]

-- A result that fails leaves an outage whose latest alert is not yet an hour old.
pub watch-recent :
    (now : ℕ) (r : CheckResult) (p : Option Outage)
    → r.is_ok ≡ false
    → (o : Outage) × ((watch now r p).0 ≡ some o) × (now < o.alerted + alert_reminder_ms)
unfolding watch alert_reminder_ms
watch-recent now r none h = (record { since = now; alerted = now }, rw h refl, omega arith)
watch-recent now r (some o) h = elim (Bool-cases (leb (o.alerted + alert_reminder_ms) now)) [
  | inl due ↦ (record o { alerted = now }, ground (arith, h, due), omega arith)
  | inr early ↦ (o, ground (arith, h, early), ground (arith, early))
]
