-- ===== src/Funding.antt =====
-- client/scripts/funding-keeper.ts: the update of the funding of each market, and how the keeper makes sure of it.
pub mod Moved
pub mod Tests
use kryon.Common.{
  ℕ, zero, suc, String, ◌<>◌, Bool, true, false, not, Option, none, some, List, [], ◌∷◌, ◌==◌,
  if◌then◌else◌,
}
use kryon.Database.Exec.{Outcome, ok, thrown}
use kryon.Liquidation.Keeper.{PollStatus, success, not_found, failure}

-- What the network answers in one call of `updateFunding`: `last_update` of the market before, the account of the
-- keeper, the error of the simulation if any, the hash unless the transaction is refused, and for each poll the
-- status and what `last_update` reads after it. `none` is a read that gives nothing.
pub record FundingAnswers : Type 0 where
  pub before : Outcome (Option ℕ)
  pub account : Outcome (Unit {0})
  pub simulated : Outcome (Option String)
  pub sent : Outcome (Option String)
  pub polled : ℕ → Outcome PollStatus
  pub after : ℕ → Outcome (Option ℕ)

abbrev pub is_same : Option ℕ → ℕ → Bool
is_same none n = false
is_same (some m) n = m == n

-- `after !== null && after !== before`
abbrev pub if_moved : String → Option ℕ → Outcome (Option ℕ) → Outcome (Option String)
if_moved hash before (ok (some n)) = if not (is_same before n) then ok (some hash) else ok none
if_moved hash before (ok none) = ok none
if_moved hash before (thrown e) = thrown e

abbrev pub on_status :
    FundingAnswers
    → String
    → Option ℕ
    → ℕ
    → Outcome PollStatus
    → Outcome (Option String)
    → Outcome (Option String)
on_status a hash before i (ok failure) rest = thrown "failed on-chain"
on_status a hash before i (ok success) rest = if_moved hash before (a.after i)
on_status a hash before i (ok not_found) rest = rest
on_status a hash before i (thrown e) rest = thrown e

-- The polls from the i-th on, `left` of them
unfoldable pub confirm_from : FundingAnswers → String → Option ℕ → ℕ → ℕ → Outcome (Option String)
confirm_from a hash before i zero = ok none
confirm_from a hash before i (suc left) =
    let rest = confirm_from a hash before (suc i) left in
    on_status a hash before i (a.polled i) rest

abbrev pub when_sent : FundingAnswers → Option ℕ → Outcome (Option String) → Outcome (Option String)
when_sent a before (ok (some hash)) = confirm_from a hash before 0 15
when_sent a before (ok none) = thrown "submit error"
when_sent a before (thrown e) = thrown e

abbrev pub when_simulated :
    FundingAnswers → Option ℕ → Outcome (Option String) → Outcome (Option String)
when_simulated a before (ok (some error)) = ok none
when_simulated a before (ok none) = when_sent a before a.sent
when_simulated a before (thrown e) = thrown e

abbrev pub with_account : FundingAnswers → Option ℕ → Outcome (Unit {0}) → Outcome (Option String)
with_account a before (ok u) = when_simulated a before a.simulated
with_account a before (thrown e) = thrown e

abbrev pub with_before : FundingAnswers → Outcome (Option ℕ) → Outcome (Option String)
with_before a (ok before) = with_account a before a.account
with_before a (thrown e) = thrown e

unfoldable pub update_funding : FundingAnswers → Outcome (Option String)
unfolding confirm_from
update_funding a = with_before a a.before

-- The markets of a tick that the keeper takes as updated, each with the hash. An error on a market is logged.
abbrev logged : ℕ → Outcome (Option String) → List (ℕ × String) → List (ℕ × String)
logged id (ok (some hash)) rest = (id, hash) ∷ rest
logged id (ok none) rest = rest
logged id (thrown e) rest = rest

unfoldable pub funding_tick : (ℕ → FundingAnswers) → List ℕ → List (ℕ × String)
unfolding update_funding
funding_tick node [] = []
funding_tick node (id ∷ rest) =
    let others = funding_tick node rest in logged id (update_funding (node id)) others
