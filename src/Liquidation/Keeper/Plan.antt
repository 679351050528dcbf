-- ===== src/Liquidation/Keeper/Plan.antt =====
-- What `liquidateAccount` of client/scripts/liquidation-keeper.ts tries to close: a plan made of the answers on the
-- positions and the prices, which it follows up to the first transaction that the network confirms.
use kryon.Common.{
  ℕ, ◌≡◌, refl, inl, inr, String, Bool, true, false, Option, none, some, List, [], ◌∷◌, ◌++◌, ltb,
  leb, ◌==◌, if◌then◌else◌, arith, Bool-cases,
}
use kryon.Common.Int.{ℤ, pos, negsuc}
use kryon.Database.Exec.{Outcome, ok, thrown}
use kryon.Liquidation.{
  SizingPosition, SizingHealth, Climbs, close_size_ladder, close_size_ladder-IsLadder,
}
use kryon.Liquidation.Keeper.Answered.{IsConfirmed, IsUnreported, submit-Says}
use kryon.Liquidation.Keeper.{
  HealthView, PositionView, Attempt, KeeperConfig, Tried, submit, after_submit, try_sizes, sizing,
  sizing_health, at_price, in_market, or_else, try_positions, ranked, liquidate_account,
}

abbrev pub attempt : String → PositionView → ℕ → ℕ → Attempt
attempt user p price size = record {
  user = user;
  position = p;
  close_size = size;
  execution_price = price;
}

abbrev pub planned_sizes : String → PositionView → ℕ → List ℕ → List Attempt
planned_sizes user p price [] = []
planned_sizes user p price (size ∷ sizes) =
    attempt user p price size ∷ planned_sizes user p price sizes

abbrev pub planned_at : String → HealthView → PositionView → Outcome (Option ℤ) → List Attempt
planned_at user health p (ok (some (pos price))) =
    if ltb 0 price
    then planned_sizes user p price (close_size_ladder (sizing p) price (sizing_health health))
    else []
planned_at user health p (ok (some (negsuc n))) = []
planned_at user health p (ok none) = []
planned_at user health p (thrown e) = []

abbrev pub planned_in :
    KeeperConfig → String → HealthView → PositionView → Option String → List Attempt
planned_in c user health p none = []
planned_in c user health p (some symbol) = planned_at user health p (c.oracle_price p symbol)

-- The ladder of a position, at the price of its market where it has one.
abbrev pub planned : KeeperConfig → String → HealthView → PositionView → List Attempt
planned c user health p = planned_in c user health p (c.symbol_of p.market_id)

abbrev pub plan : KeeperConfig → String → HealthView → List PositionView → List Attempt
plan c user health [] = []
plan c user health (p ∷ ps) = planned c user health p ++ plan c user health ps

-- What came of a plan: all of it was made and the network reported success of none, or its attempts up to one of which
-- it reported success were made and it had reported that of none before, or an error stopped it.
pub data Follows (c : KeeperConfig) : Outcome Bool → List Attempt → List Attempt → Type 0 where
  finished : Follows c (ok false) [] []
  unreported :
      {r : Outcome Bool} {xs ys : List Attempt} (x : Attempt)
      → IsUnreported (c.on_liquidate x)
      → Follows c r xs ys
      → Follows c r (x ∷ xs) (x ∷ ys)
  confirmed :
      {ys : List Attempt} (x : Attempt) (hash : String)
      → IsConfirmed (c.on_liquidate x) hash
      → Follows c (ok true) (x ∷ []) (x ∷ ys)
  failed :
      {ys : List Attempt} (x : Attempt) (e : String)
      → submit (c.on_liquidate x) ≡ thrown e
      → Follows c (thrown e) (x ∷ []) (x ∷ ys)
  stopped : {ys : List Attempt} (e : String) → Follows c (thrown e) [] ys

abbrev FollowsPlan : KeeperConfig → Tried → List Attempt → Type 0
FollowsPlan c (r, xs) ys = Follows c r xs ys

after_submit-Follows :
    (c : KeeperConfig) (x : Attempt) (r : Outcome (Option String)) (rest : Tried)
    (ys : List Attempt)
    → submit (c.on_liquidate x) ≡ r
    → FollowsPlan c rest ys
    → FollowsPlan c (after_submit x r rest) (x ∷ ys)
after_submit-Follows c x (ok (some hash)) rest ys e h =
    confirmed x hash (submit-Says (c.on_liquidate x) (some hash) e)
after_submit-Follows c x (ok none) rest ys e h =
    unreported x (submit-Says (c.on_liquidate x) none e) h
after_submit-Follows c x (thrown f) rest ys e h = failed x f e

-- The sizes of a ladder are positive.
try_sizes-Follows :
    (c : KeeperConfig) (user : String) (p : PositionView) (price low size : ℕ) (sizes : List ℕ)
    → Climbs low size sizes
    → FollowsPlan c (try_sizes c user p price sizes) (planned_sizes user p price sizes)
unfolding try_sizes
try_sizes-Follows c user p price low size [] h = finished
try_sizes-Follows c user p price low size (s ∷ ss) (above, within, climbs) =
    let ih = try_sizes-Follows c user p price s size ss climbs in
    let positive : leb s 0 ≡ false = ground (arith, above) in
    rw positive (
      after_submit-Follows c (attempt user p price s)
        (submit (c.on_liquidate (attempt user p price s))) (try_sizes c user p price ss)
        (planned_sizes user p price ss) refl ih)

-- The ladder climbs also where the position has no size: it is empty then.
pub ladder-Climbs :
    (p : SizingPosition) (price : ℕ) (h : SizingHealth)
    → Climbs 0 p.size (close_size_ladder p price h)
unfolding close_size_ladder
ladder-Climbs p price h = elim (Bool-cases (p.size == 0)) [
  | inl none_left ↦ rw none_left tt
  | inr some_left ↦ (close_size_ladder-IsLadder p price h (ground (arith, some_left))).0
]

at_price-Follows :
    (c : KeeperConfig) (user : String) (health : HealthView) (p : PositionView)
    (r : Outcome (Option ℤ))
    → FollowsPlan c (at_price c user health p r) (planned_at user health p r)
at_price-Follows c user health p (ok (some (pos price))) = elim (Bool-cases (leb price 0)) [
  | inl none_left ↦
      let e : ltb 0 price ≡ false = ground (arith, none_left) in rw (none_left, e) finished
  | inr positive ↦
      let e : ltb 0 price ≡ true = ground (arith, positive) in
      rw (positive, e)
        (try_sizes-Follows c user p price 0 p.size _
          (ladder-Climbs (sizing p) price (sizing_health health)))
]
at_price-Follows c user health p (ok (some (negsuc n))) = finished
at_price-Follows c user health p (ok none) = finished
at_price-Follows c user health p (thrown e) = stopped e

in_market-Follows :
    (c : KeeperConfig) (user : String) (health : HealthView) (p : PositionView) (m : Option String)
    → FollowsPlan c (in_market c user health p m) (planned_in c user health p m)
in_market-Follows c user health p none = finished
in_market-Follows c user health p (some symbol) =
    at_price-Follows c user health p (c.oracle_price p symbol)

or_else-Follows :
    (c : KeeperConfig) (r : Outcome Bool) (xs ys : List Attempt) (rest : Tried) (zs : List Attempt)
    → Follows c r xs ys
    → FollowsPlan c rest zs
    → FollowsPlan c (or_else (r, xs) rest) (ys ++ zs)
or_else-Follows c r xs ys rest zs finished k = k
or_else-Follows c r xs ys rest zs (confirmed x hash e) k = confirmed x hash e
or_else-Follows c r xs ys rest zs (failed x f e) k = failed x f e
or_else-Follows c r xs ys rest zs (stopped e) k = stopped e
or_else-Follows c r xs ys rest zs (unreported {xs = us} {ys = vs} x e h) k =
    or_else-cons c r x us (vs ++ zs) rest e (or_else-Follows c r us vs rest zs h k)
  where
    or_else-cons :
        (c : KeeperConfig) (r : Outcome Bool) (x : Attempt) (us vs : List Attempt) (rest : Tried)
        → IsUnreported (c.on_liquidate x)
        → FollowsPlan c (or_else (r, us) rest) vs
        → FollowsPlan c (or_else (r, x ∷ us) rest) (x ∷ vs)
    or_else-cons c (ok true) x us vs rest e h = unreported x e h
    or_else-cons c (ok false) x us vs rest e h = unreported x e h
    or_else-cons c (thrown f) x us vs rest e h = unreported x e h

try_positions-Follows :
    (c : KeeperConfig) (user : String) (health : HealthView) (ps : List PositionView)
    → FollowsPlan c (try_positions c user health ps) (plan c user health ps)
unfolding try_positions
try_positions-Follows c user health [] = finished
try_positions-Follows c user health (p ∷ ps) =
    let (r, xs) = in_market c user health p (c.symbol_of p.market_id) in
    or_else-Follows c r xs (planned c user health p) (try_positions c user health ps)
      (plan c user health ps) (in_market-Follows c user health p (c.symbol_of p.market_id))
      (try_positions-Follows c user health ps)

-- The attempts of `liquidateAccount` follow the plan of the positions of the account, ranked. When it answers that
-- it closed nothing, each planned attempt was made and the network reported success of none in its fifteen polls; when
-- it answers that it did, the network reported success of the last attempt, and of none of the planned ones before it.
-- An attempt without such a report was refused at its simulation or submission, failed, or was found by no poll, and
-- may then still be confirmed.
pub liquidate_account-Follows :
    (c : KeeperConfig) (user : String) (health : HealthView) (ps : List PositionView)
    → c.positions_of user ≡ ok ps
    → let (r, xs) = liquidate_account c user health in
      Follows c r xs (plan c user health (ranked ps))
unfolding liquidate_account
liquidate_account-Follows c user health ps h =
    rw h (try_positions-Follows c user health (ranked ps))
