-- ===== src/Liquidation/Keeper/Scan.antt =====
-- The scan of the accounts in `run` of client/scripts/liquidation-keeper.ts.
use kryon.Common.{
  ◌≡◌, refl, ap, subst, ◌⊎◌, ◌↔◌, inl, inr, String, true, Option, none, some, List, [], ◌∷◌, ◌++◌,
  map, if◌then◌else◌, In, In-append_left, In-append_right, Bool-cases, arith,
}
use kryon.Common.Int.{ℤ, pos, negsuc}
use kryon.Database.Exec.{Outcome, ok, thrown}
use kryon.Liquidation.Keeper.{HealthView, Attempt, KeeperConfig, submit, liquidate_account}

-- What the keeper asks of the network: to settle the deficit of an account, or to close a position.
pub data Action : Type 0 where
  settle : String → Action
  close : Attempt → Action

abbrev after_settle : Outcome (Option String) → Outcome (Unit {0})
after_settle (ok hash) = ok tt
after_settle (thrown e) = thrown e

abbrev of_balance : KeeperConfig → String → Outcome (Option ℤ) → Outcome (Unit {0}) × List Action
of_balance c address (ok (some (negsuc n))) =
    (after_settle (submit (c.on_settle address)), settle address ∷ [])
of_balance c address (ok (some (pos n))) = (ok tt, [])
of_balance c address (ok none) = (ok tt, [])
of_balance c address (thrown e) = (thrown e, [])

-- `if (SETTLE_DEFICITS)`
unfoldable pub settle_account : KeeperConfig → String → Outcome (Unit {0}) × List Action
settle_account c address =
    if c.settle_deficits then of_balance c address (c.settlement_balance address) else (ok tt, [])

abbrev pub closes : List Attempt → List Action
closes xs = map close xs

-- The attempts where the account can be liquidated. An error on an account is logged.
abbrev pub of_health : KeeperConfig → String → Outcome (Option HealthView) → List Action
of_health c address (ok (some h)) =
    if h.liquidatable then closes (liquidate_account c address h).1 else []
of_health c address (ok none) = []
of_health c address (thrown e) = []

abbrev after_settling : KeeperConfig → String → Outcome (Unit {0}) × List Action → List Action
after_settling c address (ok u, actions) = actions ++ of_health c address (c.account_health address)
after_settling c address (thrown e, actions) = actions

unfoldable pub scan_account : KeeperConfig → String → List Action
unfolding settle_account liquidate_account
scan_account c address =
    if c.is_valid_public_key address
    then after_settling c address (settle_account c address)
    else []

unfoldable pub scan : KeeperConfig → List String → List Action
unfolding scan_account
scan c [] = []
scan c (address ∷ rest) = scan_account c address ++ scan c rest

-- The account has a valid key, no error came of its deficit, the vault says that it can be liquidated, and the
-- attempt is one of those of `liquidateAccount`.
pub record IsDue (c : KeeperConfig) (x : Attempt) (address : String) : Type 0 where
  pub valid : c.is_valid_public_key address ≡ true
  pub settled : (settle_account c address).0 ≡ ok tt
  pub due :
      (h : HealthView) × (c.account_health address ≡ ok (some h))
      × (h.liquidatable ≡ true)
      × In x (liquidate_account c address h).1

In-closes : (x : Attempt) (xs : List Attempt) → In (close x) (closes xs) → In x xs
In-closes x [] m = absurd m
In-closes x (y ∷ ys) (inl e) = inl (cc e)
In-closes x (y ∷ ys) (inr m) = inr (In-closes x ys m)

closes-In : (x : Attempt) (xs : List Attempt) → In x xs → In (close x) (closes xs)
closes-In x [] m = absurd m
closes-In x (y ∷ ys) (inl e) = inl (ap close e)
closes-In x (y ∷ ys) (inr m) = inr (closes-In x ys m)

In-append_cases : {A : Type 0} (x : A) (xs ys : List A) → In x (xs ++ ys) → In x xs ⊎ In x ys
In-append_cases x [] ys m = inr m
In-append_cases x (y ∷ xs) ys (inl e) = inl (inl e)
In-append_cases x (y ∷ xs) ys (inr m) = elim (In-append_cases x xs ys m) [
  | inl k ↦ inl (inr k)
  | inr k ↦ inr k
]

-- Settling closes nothing.
settle-closes_nothing :
    (c : KeeperConfig) (address : String) (x : Attempt)
    → ¬ (In (close x) (settle_account c address).1)
unfolding settle_account
settle-closes_nothing c address x m = elim (Bool-cases c.settle_deficits) [
  | inl on ↦ balance-closes_nothing (c.settlement_balance address) (rw on at m)
  | inr off ↦ absurd (rw off at m)
]
  where
    balance-closes_nothing : (r : Outcome (Option ℤ)) → ¬ (In (close x) (of_balance c address r).1)
    balance-closes_nothing (ok (some (negsuc n))) (inl e) = cc e
    balance-closes_nothing (ok (some (negsuc n))) (inr k) = absurd k
    balance-closes_nothing (ok (some (pos n))) k = absurd k
    balance-closes_nothing (ok none) k = absurd k
    balance-closes_nothing (thrown e) k = absurd k

of_health-due :
    (c : KeeperConfig) (address : String) (x : Attempt) (r : Outcome (Option HealthView))
    → In (close x) (of_health c address r)
    → (h : HealthView) × (r ≡ ok (some h))
      × (h.liquidatable ≡ true)
      × In x (liquidate_account c address h).1
unfolding liquidate_account
of_health-due c address x (ok (some h)) m = elim (Bool-cases h.liquidatable) [
  | inl on ↦ (h, refl, on, In-closes x _ (rw on at m))
  | inr off ↦ absurd (rw off at m)
]
of_health-due c address x (ok none) m = absurd m
of_health-due c address x (thrown e) m = absurd m

after_settling-due :
    (c : KeeperConfig) (address : String) (x : Attempt) (r : Outcome (Unit {0}))
    (actions : List Action)
    → ¬ (In (close x) actions)
    → In (close x) (after_settling c address (r, actions))
    → (r ≡ ok tt) × In (close x) (of_health c address (c.account_health address))
after_settling-due c address x (ok tt) actions h m = elim (In-append_cases (close x) actions _ m) [
  | inl k ↦ absurd (h k)
  | inr k ↦ (refl, k)
]
after_settling-due c address x (thrown e) actions h m = absurd (h m)

scan_account-IsDue :
    (c : KeeperConfig) (x : Attempt) (address : String)
    → In (close x) (scan_account c address)
    → IsDue c x address
unfolding scan_account
scan_account-IsDue c x address m = elim (Bool-cases (c.is_valid_public_key address)) [
  | inl good ↦
      let (settled, k) =
        after_settling-due c address x (settle_account c address).0 (settle_account c address).1
          (settle-closes_nothing c address x) (rw good at m) in
      record { valid = good; settled = settled; due = of_health-due c address x _ k }
  | inr bad ↦ absurd (rw bad at m)
]

IsDue-scan_account :
    (c : KeeperConfig) (x : Attempt) (address : String)
    → IsDue c x address
    → In (close x) (scan_account c address)
unfolding scan_account
IsDue-scan_account c x address d =
    let (h, health, liquidatable, m) = d.due in
    let closed : In (close x) (of_health c address (c.account_health address)) =
      rw (health, liquidatable) (closes-In x _ m) in
    rw d.valid (
      settled_then c address x (settle_account c address).0 (settle_account c address).1 d.settled
        closed)
  where
    settled_then :
        (c : KeeperConfig) (address : String) (x : Attempt) (r : Outcome (Unit {0}))
        (actions : List Action)
        → r ≡ ok tt
        → In (close x) (of_health c address (c.account_health address))
        → In (close x) (after_settling c address (r, actions))
    settled_then c address x (ok tt) actions e k = In-append_right (close x) actions _ k
    settled_then c address x (thrown f) actions e k = absurd (ground (arith, e))

-- A scan tries to close a position exactly where it is due: for an account among the rows whose key is valid, no
-- error having come of its deficit, that the vault says can be liquidated, an attempt of `liquidateAccount`. What
-- happens with another account does not matter.
pub scan-IsDue :
    (c : KeeperConfig) (rows : List String) (x : Attempt)
    → In (close x) (scan c rows) ↔ ((address : String) × In address rows × IsDue c x address)
unfolding scan
scan-IsDue c [] x = (λ m. absurd m, λ (address, m, d). absurd m)
scan-IsDue c (a ∷ rest) x =
    let (there, back) = scan-IsDue c rest x in
    (
      λ m. elim (In-append_cases (close x) (scan_account c a) (scan c rest) m) [
        | inl k ↦ (a, inl refl, scan_account-IsDue c x a k)
        | inr k ↦ let (address, n, d) = there k in (address, inr n, d)
      ],
      λ (address, m, d). elim m [
        | inl e ↦
            In-append_left (close x) (scan_account c a) (scan c rest)
              (IsDue-scan_account c x a (subst (IsDue c x) e d))
        | inr n ↦ In-append_right (close x) (scan_account c a) (scan c rest) (back (address, n, d))
      ],
    )
