-- ===== src/Oracle/Publish/Due.antt =====
-- When `shouldPublish` of client/scripts/oracle-keeper.ts lets a price be published.
use kryon.Common.{
  ℕ, ◌-◌, ◌*◌, ◌<◌, leb, Bool-cases, ap, sym, subst, ◌∙◌, ◌+◌, ◌/◌, ◌≤◌, ◌≡◌, ◌⊎◌, inl, inr, String,
  true, some, if◌then◌else◌, arith, ltb,
}
use kryon.Database.Exec.{ok}
use kryon.Oracle.{OracleConfig}
use native.Mathlib.Nat.{le_trans, mul-le-mul_right, div-mul-le_self}
use kryon.Oracle.Publish.{
  Published, moved_enough, should_publish_after, last_of, OracleState, should_publish,
}

-- The last publication that the keeper knows of the symbol is as old as the heartbeat, or the price differs from it by
-- at least the limit, in ten-thousandths of it.
abbrev pub IsDue : OracleConfig → OracleState → ℕ → String → ℕ → Type 0
IsDue c s now symbol price =
    (last : Published)
    → last_of symbol s.last_published ≡ some last
    → (last.ts + c.publish_heartbeat_secs * 1000 ≤ now)
      ⊎ ((0 < last.price)
          × (c.publish_deviation_bps * last.price
              ≤ ((price - last.price) + (last.price - price)) * 10000))

-- A quotient that reaches a limit does so before the division.
le-div-mul : (k n d : ℕ) → k ≤ n / d → k * d ≤ n
le-div-mul k n d h = le_trans (mul-le-mul_right d h) (div-mul-le_self n d)

moved_enough-IsDue :
    (now price deviation_bps heartbeat_secs : ℕ) (last : Published)
    → moved_enough now last price deviation_bps heartbeat_secs ≡ ok true
    → (last.ts + heartbeat_secs * 1000 ≤ now)
      ⊎ ((0 < last.price)
          × (deviation_bps * last.price ≤ ((price - last.price) + (last.price - price)) * 10000))
moved_enough-IsDue now price deviation_bps heartbeat_secs last h =
    elim (Bool-cases (leb (last.ts + heartbeat_secs * 1000) now)) [
      | inl old ↦ inl (ground (arith, old))
      | inr young ↦ elim (Bool-cases (leb last.price 0)) [
        | inl none_left ↦ absurd (ground (arith, young, none_left, h))
        | inr positive ↦
            let diff = if ltb last.price price then price - last.price else last.price - price in
            let enough : deviation_bps ≤ diff * 10000 / last.price =
              ground (arith, young, positive, h) in
            let same : diff ≡ (price - last.price) + (last.price - price) = ground arith in
            inr (
              ground (arith, positive),
              subst (λ n. deviation_bps * last.price ≤ n * 10000) same
                  (le-div-mul deviation_bps (diff * 10000) last.price enough),
            )
      ]
    ]

pub should_publish-IsDue :
    (c : OracleConfig) (s : OracleState) (now : ℕ) (symbol : String) (price : ℕ)
    → should_publish s now symbol price c.publish_deviation_bps c.publish_heartbeat_secs ≡ ok true
    → IsDue c s now symbol price
unfolding should_publish
should_publish-IsDue c s now symbol price h last e =
    moved_enough-IsDue now price c.publish_deviation_bps c.publish_heartbeat_secs last (
      ap (should_publish_after now price c.publish_deviation_bps c.publish_heartbeat_secs) (sym e)
      ∙ h)
