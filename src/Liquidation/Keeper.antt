-- ===== src/Liquidation/Keeper.antt =====
-- client/scripts/liquidation-keeper.ts: which positions the keeper closes, in which sizes, and its scan of the
-- accounts. Each answer of the network is given by what it answers to; no question is asked twice in a scan.
pub mod Answered
pub mod Plan
pub mod Order
pub mod Unconfirmed
pub mod Scan
pub mod Round
use kryon.Common.{
  ℕ, zero, suc, ◌+◌, ◌*◌, String, Bool, true, false, not, Option, none, some, List, [], ◌∷◌, ◌++◌,
  ltb, leb, if◌then◌else◌,
}
use kryon.Common.Int.{ℤ, pos, negsuc}
use kryon.Database.Exec.{Outcome, ok, thrown}
use kryon.Matcher.Sort.{sort}
use kryon.Liquidation.{SizingPosition, SizingHealth, close_size_ladder}

pub record HealthView : Type 0 where
  pub liquidatable : Bool
  pub equity : ℤ
  pub maintenance_margin_required : ℤ

-- The engine keeps the size of a position without its sign.
pub record PositionView : Type 0 where
  pub position_id : ℕ
  pub market_id : ℕ
  pub size : ℕ
  pub entry_price : ℕ
  pub is_long : Bool

-- A call of `submitLiquidate`
pub record Attempt : Type 0 where
  pub user : String
  pub position : PositionView
  pub close_size : ℕ
  pub execution_price : ℕ

pub data PollStatus : Type 0 where
  success not_found failure : PollStatus

-- What the network answers to a transaction: whether the account of the liquidator is read, the error of the
-- simulation if any, the hash unless it is refused, and the status at each poll.
pub record SubmitAnswers : Type 0 where
  pub account : Outcome (Unit {0})
  pub simulated : Outcome (Option String)
  pub sent : Outcome (Option String)
  pub polled : ℕ → Outcome PollStatus

abbrev pub after_poll :
    String → Outcome PollStatus → Outcome (Option String) → Outcome (Option String)
after_poll hash (ok success) rest = ok (some hash)
after_poll hash (ok failure) rest = ok none
after_poll hash (ok not_found) rest = rest
after_poll hash (thrown e) rest = thrown e

-- The polls from the i-th on, `left` of them.
unfoldable pub poll_from : (ℕ → Outcome PollStatus) → String → ℕ → ℕ → Outcome (Option String)
poll_from polled hash i zero = ok none
poll_from polled hash i (suc left) =
    let rest = poll_from polled hash (suc i) left in after_poll hash (polled i) rest

abbrev pub after_send : SubmitAnswers → Outcome (Option String) → Outcome (Option String)
after_send a (ok (some hash)) = poll_from a.polled hash 0 15
after_send a (ok none) = ok none
after_send a (thrown e) = thrown e

abbrev pub after_simulation : SubmitAnswers → Outcome (Option String) → Outcome (Option String)
after_simulation a (ok (some error)) = ok none
after_simulation a (ok none) = after_send a a.sent
after_simulation a (thrown e) = thrown e

abbrev pub after_account : SubmitAnswers → Outcome (Unit {0}) → Outcome (Option String)
after_account a (ok u) = after_simulation a a.simulated
after_account a (thrown e) = thrown e

-- `submitLiquidate` and `settleDeficit`, which differ in the call that they send. The hash of a transaction that
-- the network confirmed.
unfoldable pub submit : SubmitAnswers → Outcome (Option String)
submit a = after_account a a.account

-- The markets of the keeper, and what the network answers. `oracle_price` is none where there is no price.
pub record KeeperConfig : Type 0 where
  pub symbol_of : ℕ → Option String
  pub positions_of : String → Outcome (List PositionView)
  pub oracle_price : PositionView → String → Outcome (Option ℤ)
  pub on_liquidate : Attempt → SubmitAnswers
  pub is_valid_public_key : String → Bool
  pub settle_deficits : Bool
  pub settlement_balance : String → Outcome (Option ℤ)
  pub on_settle : String → SubmitAnswers
  pub account_health : String → Outcome (Option HealthView)

-- What part of the code answers, and the attempts that it made, in their order.
abbrev pub Tried : Type 0
Tried = Outcome Bool × List Attempt

abbrev pub after_submit : Attempt → Outcome (Option String) → Tried → Tried
after_submit x (ok (some hash)) rest = (ok true, x ∷ [])
after_submit x (ok none) rest = let (r, xs) = rest in (r, x ∷ xs)
after_submit x (thrown e) rest = (thrown e, x ∷ [])

-- `for (const closeSize of ladder)`
unfoldable pub try_sizes : KeeperConfig → String → PositionView → ℕ → List ℕ → Tried
unfolding submit
try_sizes c user p price [] = (ok false, [])
try_sizes c user p price (size ∷ sizes) =
    let rest = try_sizes c user p price sizes in
    let x : Attempt = record {
      user = user;
      position = p;
      close_size = size;
      execution_price = price;
    } in
    if leb size 0 then rest else after_submit x (submit (c.on_liquidate x)) rest

abbrev pub sizing : PositionView → SizingPosition
sizing p = record { size = p.size }

abbrev pub sizing_health : HealthView → SizingHealth
sizing_health h = record {
  equity = h.equity;
  maintenance_margin_required = h.maintenance_margin_required;
}

abbrev at_price : KeeperConfig → String → HealthView → PositionView → Outcome (Option ℤ) → Tried
at_price c user health p (ok (some (pos price))) =
    if leb price 0
    then (ok false, [])
    else try_sizes c user p price (close_size_ladder (sizing p) price (sizing_health health))
at_price c user health p (ok (some (negsuc n))) = (ok false, [])
at_price c user health p (ok none) = (ok false, [])
at_price c user health p (thrown e) = (thrown e, [])

abbrev in_market : KeeperConfig → String → HealthView → PositionView → Option String → Tried
in_market c user health p none = (ok false, [])
in_market c user health p (some symbol) = at_price c user health p (c.oracle_price p symbol)

abbrev pub or_else : Tried → Tried → Tried
or_else (ok true, xs) rest = (ok true, xs)
or_else (ok false, xs) rest = let (r, ys) = rest in (r, xs ++ ys)
or_else (thrown e, xs) rest = (thrown e, xs)

-- `for (const pos of ranked)`
unfoldable pub try_positions : KeeperConfig → String → HealthView → List PositionView → Tried
unfolding try_sizes
try_positions c user health [] = (ok false, [])
try_positions c user health (p ∷ rest) =
    let others = try_positions c user health rest in
    or_else (in_market c user health p (c.symbol_of p.market_id)) others

unfoldable pub notional : PositionView → ℕ
notional p = p.size * p.entry_price

-- The largest notional first; equal ones stay in their order.
unfoldable pub ranked : List PositionView → List PositionView
unfolding notional
ranked = sort (λ a b. leb (notional b) (notional a))

abbrev with_positions : KeeperConfig → String → HealthView → Outcome (List PositionView) → Tried
with_positions c user health (ok ps) = try_positions c user health (ranked ps)
with_positions c user health (thrown e) = (thrown e, [])

unfoldable pub liquidate_account : KeeperConfig → String → HealthView → Tried
unfolding try_positions ranked
liquidate_account c user health = with_positions c user health (c.positions_of user)
