-- ===== src/Liquidation/Keeper/Order.antt =====
-- The order and the soundness of what `liquidateAccount` of client/scripts/liquidation-keeper.ts tries.
use kryon.Common.{
  ℕ, ◌≤◌, ◌<◌, ◌≡◌, refl, sym, inl, inr, String, Bool, Option, none, some, List, [], ◌∷◌, ◌++◌, ltb,
  leb, arith, All, All-append, All-at, All-intro, In, Bool-cases,
}
use kryon.Common.Int.{ℤ, pos, negsuc}
use kryon.Database.Exec.{Outcome, ok, thrown}
use kryon.Matcher.Sort.{sort-In, sort-IsSorted, sort-Pairwise, IsSorted, Pairwise}
use kryon.Liquidation.{Climbs}
use kryon.Liquidation.Keeper.{
  HealthView, PositionView, Attempt, KeeperConfig, sizing, sizing_health, notional, ranked,
  liquidate_account,
}
use kryon.Liquidation.Keeper.Plan.{
  attempt, planned_sizes, planned_at, planned_in, planned, plan, Follows, finished, unreported,
  confirmed, failed, stopped, ladder-Climbs, liquidate_account-Follows,
}

-- The position that is tried first has no smaller notional, and the sizes of one position rise.
abbrev pub Precedes : Attempt → Attempt → Type 0
Precedes x y =
    (notional y.position ≤ notional x.position)
    × (x.position.position_id ≡ y.position.position_id → x.close_size < y.close_size)

abbrev pub HaveOtherIds : PositionView → PositionView → Type 0
HaveOtherIds p q = ¬ (p.position_id ≡ q.position_id)

-- An attempt for the user closes a part of the position or all of it, at the positive price that the oracle gives
-- for its market, which is one of the exchange.
pub record IsSound (c : KeeperConfig) (user : String) (p : PositionView) (x : Attempt)
    : Type 0 where
  pub of_user : x.user ≡ user
  pub of_position : x.position ≡ p
  pub positive : 0 < x.close_size
  pub within : x.close_size ≤ p.size
  pub priced :
      (symbol : String) × (c.symbol_of p.market_id ≡ some symbol)
      × (c.oracle_price p symbol ≡ ok (some (pos x.execution_price)))
      × (0 < x.execution_price)

IsPriced : KeeperConfig → PositionView → ℕ → Type 0
IsPriced c p price =
    (symbol : String) × (c.symbol_of p.market_id ≡ some symbol)
    × (c.oracle_price p symbol ≡ ok (some (pos price)))
    × (0 < price)

-- The attempts at the sizes of a ladder beyond `low` are sound and in order.
InLadder : KeeperConfig → String → PositionView → ℕ → List Attempt → Type 0
InLadder c user p low xs =
    All (λ x. IsSound c user p x × (low < x.close_size)) xs × Pairwise Precedes xs

sizes-InLadder :
    (c : KeeperConfig) (user : String) (p : PositionView) (price low : ℕ) (sizes : List ℕ)
    → IsPriced c p price
    → Climbs low p.size sizes
    → InLadder c user p low (planned_sizes user p price sizes)
unfolding InLadder IsPriced
sizes-InLadder c user p price low [] h k = (tt, tt)
sizes-InLadder c user p price low (s ∷ ss) h (above, within, climbs) =
    let (sound, ordered) = sizes-InLadder c user p price s ss h climbs in
    let first : IsSound c user p (attempt user p price s) = record {
      of_user = refl;
      of_position = refl;
      positive = omega arith;
      within = within;
      priced = h;
    } in
    (
      (
        (first, above),
        All-intro _ _ λ x m. let (good, more) = All-at _ x _ sound m in (good, omega arith),
      ),
      (
        All-intro _ _ (λ x m.
            let (good, more) = All-at _ x _ sound m in
            (rw good.of_position (omega arith), λ same. more)),
        ordered,
      ),
    )

at-InLadder :
    (c : KeeperConfig) (user : String) (health : HealthView) (p : PositionView) (symbol : String)
    (r : Outcome (Option ℤ))
    → c.symbol_of p.market_id ≡ some symbol
    → c.oracle_price p symbol ≡ r
    → InLadder c user p 0 (planned_at user health p r)
unfolding InLadder IsPriced
at-InLadder c user health p symbol (ok (some (pos price))) h k = elim (Bool-cases (ltb 0 price)) [
  | inl positive ↦ rw positive (
      sizes-InLadder c user p price 0 _ (symbol, h, k, ground (arith, positive))
        (ladder-Climbs (sizing p) price (sizing_health health)))
  | inr none_left ↦ rw none_left (tt, tt)
]
at-InLadder c user health p symbol (ok (some (negsuc n))) h k = (tt, tt)
at-InLadder c user health p symbol (ok none) h k = (tt, tt)
at-InLadder c user health p symbol (thrown e) h k = (tt, tt)

in-InLadder :
    (c : KeeperConfig) (user : String) (health : HealthView) (p : PositionView) (m : Option String)
    → c.symbol_of p.market_id ≡ m
    → InLadder c user p 0 (planned_in c user health p m)
unfolding InLadder
in-InLadder c user health p none h = (tt, tt)
in-InLadder c user health p (some symbol) h = at-InLadder c user health p symbol _ h refl

Pairwise-append :
    {A : Type 0} (R : A → A → Type 0) (xs ys : List A)
    → Pairwise R xs
    → Pairwise R ys
    → All (λ x. All (R x) ys) xs
    → Pairwise R (xs ++ ys)
Pairwise-append R [] ys h k l = k
Pairwise-append R (x ∷ xs) ys h k l =
    (All-append (R x) xs ys h.0 l.0, Pairwise-append R xs ys h.1 k l.1)

-- The attempt is sound for one of the positions.
abbrev pub IsSoundFor : KeeperConfig → String → List PositionView → Attempt → Type 0
IsSoundFor c user ps x = (p : PositionView) × In p ps × IsSound c user p x

before_others :
    (c : KeeperConfig) (user : String) (p q : PositionView) (x y : Attempt)
    → notional q ≤ notional p
    → HaveOtherIds p q
    → IsSound c user p x
    → IsSound c user q y
    → Precedes x y
before_others c user p q x y less other h k =
    rw (h.of_position, k.of_position) (less, λ same. absurd (other same))

plan-InOrder :
    (c : KeeperConfig) (user : String) (health : HealthView) (ps : List PositionView)
    → IsSorted (λ a b. leb (notional b) (notional a)) ps
    → Pairwise HaveOtherIds ps
    → All (IsSoundFor c user ps) (plan c user health ps) × Pairwise Precedes (plan c user health ps)
unfolding InLadder
plan-InOrder c user health [] sorted others = (tt, tt)
plan-InOrder c user health (p ∷ ps) (largest, sorted) (other, others) =
    let (sound, ordered) = in-InLadder c user health p (c.symbol_of p.market_id) refl in
    let (all_sound, all_ordered) = plan-InOrder c user health ps sorted others in
    (
      All-append (IsSoundFor c user (p ∷ ps)) (planned c user health p) (plan c user health ps)
          (All-intro _ _ (λ x m. (p, inl refl, (All-at _ x _ sound m).0)))
          (All-intro _ _
            (λ x m. let (q, mq, good) = All-at _ x _ all_sound m in (q, inr mq, good))),
      Pairwise-append Precedes (planned c user health p) (plan c user health ps) ordered all_ordered
          (All-intro _ _ λ x m. All-intro _ _ λ y n.
            let (q, mq, good) = All-at _ y _ all_sound n in
            before_others c user p q x y (ground (arith, All-at _ q ps largest mq))
              (All-at _ q ps other mq) (All-at _ x _ sound m).0 good),
    )

-- What follows a plan has the order and the soundness of the plan.
Follows-All :
    (c : KeeperConfig) (P : Attempt → Type 0) (r : Outcome Bool) (xs ys : List Attempt)
    → Follows c r xs ys
    → All P ys
    → All P xs
Follows-All c P r xs ys finished h = tt
Follows-All c P r xs ys (unreported {xs = us} {ys = vs} x e k) h =
    (h.0, Follows-All c P r us vs k h.1)
Follows-All c P r xs ys (confirmed x hash e) h = (h.0, tt)
Follows-All c P r xs ys (failed x f e) h = (h.0, tt)
Follows-All c P r xs ys (stopped f) h = tt

Follows-Pairwise :
    (c : KeeperConfig) (r : Outcome Bool) (xs ys : List Attempt)
    → Follows c r xs ys
    → Pairwise Precedes ys
    → Pairwise Precedes xs
Follows-Pairwise c r xs ys finished h = tt
Follows-Pairwise c r xs ys (unreported {xs = us} {ys = vs} x e k) h =
    (Follows-All c (Precedes x) r us vs k h.0, Follows-Pairwise c r us vs k h.1)
Follows-Pairwise c r xs ys (confirmed x hash e) h = (tt, tt)
Follows-Pairwise c r xs ys (failed x f e) h = (tt, tt)
Follows-Pairwise c r xs ys (stopped f) h = tt

ranked-IsSorted :
    (ps : List PositionView) → IsSorted (λ a b. leb (notional b) (notional a)) (ranked ps)
unfolding ranked
ranked-IsSorted ps = sort-IsSorted _ (λ a b h. ground arith) (λ a b c h k. ground arith) ps

ranked-Pairwise :
    (ps : List PositionView) → Pairwise HaveOtherIds ps → Pairwise HaveOtherIds (ranked ps)
unfolding ranked
ranked-Pairwise ps h = sort-Pairwise _ HaveOtherIds (λ a b k e. k (sym e)) ps h

ranked-In : (p : PositionView) (ps : List PositionView) → In p (ranked ps) → In p ps
unfolding ranked
ranked-In p ps m = sort-In _ p ps m

-- When the positions of an account have different ids, each attempt of `liquidateAccount` is to close a position of
-- the account in part or whole, at the positive price that the oracle gives for its market, one of the exchange.
-- The position that is tried first has no smaller notional, and the sizes tried on one position rise strictly.
pub liquidate_account-Precedes :
    (c : KeeperConfig) (user : String) (health : HealthView) (ps : List PositionView)
    → c.positions_of user ≡ ok ps
    → Pairwise HaveOtherIds ps
    → let (r, xs) = liquidate_account c user health in
      All (IsSoundFor c user ps) xs × Pairwise Precedes xs
liquidate_account-Precedes c user health ps h others =
    let follows = liquidate_account-Follows c user health ps h in
    let (sound, ordered) =
      plan-InOrder c user health (ranked ps) (ranked-IsSorted ps) (ranked-Pairwise ps others) in
    (
      All-intro _ _ (λ x m.
          let (p, mp, good) = All-at _ x _ (Follows-All c _ _ _ _ follows sound) m in
          (p, ranked-In p ps mp, good)),
      Follows-Pairwise c _ _ _ follows ordered,
    )
