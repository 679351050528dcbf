-- ===== src/Refill.antt =====
-- client/scripts/keeper-refill.ts: who gets XLM and what is bought for it. `Refill.Main` has the run. A double is the
-- number of its bit pattern.
pub mod Main
pub mod Due
pub mod Capped
pub mod Tests
use Prim.Native.Char.{code}
use kryon.Common.{
  ◌&&◌, ◌==◌, ℕ, String, Bool, true, false, Option, none, some, List, [], ◌∷◌, ◌++◌, if◌then◌else◌,
}
use kryon.Database.Exec.{Outcome, ok, thrown}
use kryon.Reconciler.Rollback.{truthy}

-- The arithmetic of doubles: `<`, `>=`, the operators, `Math.max`, the double of a number,
-- and `toFixed(7)`.
pub record Amounts : Type 0 where
  pub less : ℕ → ℕ → Bool
  pub at_least : ℕ → ℕ → Bool
  pub plus : ℕ → ℕ → ℕ
  pub minus : ℕ → ℕ → ℕ
  pub times : ℕ → ℕ → ℕ
  pub over : ℕ → ℕ → ℕ
  pub larger : ℕ → ℕ → ℕ
  pub double : ℕ → ℕ
  pub to_fixed : ℕ → String

abbrev is_empty : String → Bool
is_empty String.[] = true
is_empty (String.◌∷◌ c s) = false

-- `replace(/0+$/, "")`
unfoldable pub strip_zeros : String → String
strip_zeros String.[] = String.[]
strip_zeros (String.◌∷◌ c s) =
    let rest = strip_zeros s in
    if is_empty rest && code c == 48 then String.[] else String.◌∷◌ c rest

-- `replace(/\.$/, "")`
unfoldable pub strip_dot : String → String
strip_dot String.[] = String.[]
strip_dot (String.◌∷◌ c s) =
    let rest = strip_dot s in if is_empty s && code c == 46 then String.[] else String.◌∷◌ c rest

unfoldable pub fmt : Amounts → ℕ → String
unfolding strip_zeros strip_dot
fmt f n = strip_dot (strip_zeros (f.to_fixed n))

-- The type `Keeper`
pub record Wallet : Type 0 where
  pub name : String
  pub address : String

-- What `loadAccount` gives: the native balance if there is one among the balances, an answer 404, or another error.
pub data AccountAnswer : Type 0 where
  loaded : Option ℕ → AccountAnswer
  missing : AccountAnswer
  refused : String → AccountAnswer

pub data Tx : Type 0 where
  -- `sendMax` and `destAmount`
  swap : String → String → Tx
  -- `destination` and `amount`
  payment : String → String → Tx

-- The environment of the script, and what the network answers: the accounts of the keepers and of the source, the
-- source amount of the first path for an amount, and for the swap (`none`) or the payment of a keeper whether the
-- account of the source is read and the transaction built, and what the network says to it.
pub record RefillConfig : Type 0 where
  pub amounts : Amounts
  pub env : String → Option String
  pub public_key : String → Option String
  pub is_execute : Bool
  pub keeper_xlm_floor : ℕ
  pub keeper_xlm_target : ℕ
  pub refill_max_usdc : ℕ
  pub refill_slippage_bps : ℕ
  pub account_of : Wallet → AccountAnswer
  pub source_account : String → AccountAnswer
  pub best_path : String → Outcome (Option ℕ)
  pub prepared : Option Wallet → Tx → Outcome (Unit {0})
  pub submitted : Option Wallet → Tx → Outcome String

unfoldable pub source_xlm_reserve : ℕ
source_xlm_reserve = 3

abbrev env_of : RefillConfig → Option String → Option String
env_of c none = none
env_of c (some key) = truthy (c.env key)

unfoldable pub keeper_address : RefillConfig → String → Option String → Option String
unfolding truthy
keeper_address c secret_env pubkey_env = elim (env_of c pubkey_env) [
  | some address ↦ some address
  | none ↦ elim (truthy (c.env secret_env)) [ none ↦ none | some secret ↦ c.public_key secret ]
]

abbrev candidate : String → Option String → List Wallet → List Wallet
candidate name none rest = rest
candidate name (some address) rest = record { name = name; address = address } ∷ rest

unfoldable pub keepers : RefillConfig → List Wallet
unfolding keeper_address
keepers c = candidate "oracle" (keeper_address c "ORACLE_PUBLISHER_SECRET" none) (
    candidate "matcher"
      (keeper_address c "MATCHER_OPERATOR_SECRET" (some "MATCHER_OPERATOR_PUBKEY"))
      (candidate "liquidator" (keeper_address c "LIQUIDATOR_SECRET" none)
        (candidate "ttl-keeper" (keeper_address c "TTL_KEEPER_SECRET" none) [])))

unfoldable pub native_balance : Amounts → AccountAnswer → Outcome (Option ℕ)
native_balance f (loaded (some balance)) = ok (some balance)
native_balance f (loaded none) = ok (some (f.double 0))
native_balance f missing = ok none
native_balance f (refused e) = thrown e

pub record Deficit : Type 0 where
  pub keeper : Wallet
  pub have : ℕ
  pub need : ℕ

-- A keeper whose balance is read, before the deficits of the keepers after it
abbrev pub with_have :
    RefillConfig → Wallet → Outcome (Option ℕ) → Outcome (List Deficit) → Outcome (List Deficit)
with_have c k (thrown e) rest = thrown e
with_have c k (ok none) rest = rest
with_have c k (ok (some have)) (thrown e) = thrown e
with_have c k (ok (some have)) (ok rest) =
    if c.amounts.at_least have c.keeper_xlm_floor
    then ok rest
    else ok
        (record { keeper = k; have = have; need = c.amounts.minus c.keeper_xlm_target have } ∷ rest)

unfoldable pub find_deficits : RefillConfig → List Wallet → Outcome (List Deficit)
unfolding native_balance
find_deficits c [] = ok []
find_deficits c (k ∷ rest) =
    let others = find_deficits c rest in
    with_have c k (native_balance c.amounts (c.account_of k)) others

-- `deficits.reduce((sum, d) => sum + d.need, sum)`
unfoldable pub total_need : Amounts → ℕ → List Deficit → ℕ
total_need f sum [] = sum
total_need f sum (d ∷ rest) = total_need f (f.plus sum d.need) rest

unfoldable pub shortfall_of : RefillConfig → ℕ → List Deficit → ℕ
unfolding total_need source_xlm_reserve
shortfall_of c source_xlm deficits =
    let f = c.amounts in
    let spendable = f.larger (f.double 0) (f.minus source_xlm (f.double source_xlm_reserve)) in
    f.larger (f.double 0) (f.minus (total_need f (f.double 0) deficits) spendable)

pub record SwapPlan : Type 0 where
  pub buy_xlm : ℕ
  pub max_usdc : ℕ

unfoldable pub max_usdc_of : RefillConfig → ℕ → ℕ
max_usdc_of c quoted =
    let f = c.amounts in
    f.times quoted (f.plus (f.double 1) (f.over c.refill_slippage_bps (f.double 10000)))

abbrev pub on_path : RefillConfig → ℕ → Outcome (Option ℕ) → Outcome (Option SwapPlan)
on_path c shortfall (thrown e) = thrown e
on_path c shortfall (ok none) = thrown "no USDC->XLM path found"
on_path c shortfall (ok (some quoted)) =
    if c.amounts.less c.refill_max_usdc (max_usdc_of c quoted)
    then thrown "swap would cost more USDC than the cap"
    else ok (some (record { buy_xlm = shortfall; max_usdc = max_usdc_of c quoted }))

unfoldable pub plan_swap : RefillConfig → ℕ → Outcome (Option SwapPlan)
plan_swap c shortfall =
    if c.amounts.less (c.amounts.double 0) shortfall
    then on_path c shortfall (c.best_path (fmt c.amounts shortfall))
    else ok none
