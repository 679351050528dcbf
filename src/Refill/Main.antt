-- ===== src/Refill/Main.antt =====
-- The run of client/scripts/keeper-refill.ts: what it submits, and how it ends.
use kryon.Common.{ℕ, String, Option, none, some, List, [], ◌∷◌, if◌then◌else◌}
use kryon.Database.Exec.{Outcome, ok, thrown}
use kryon.Reconciler.Rollback.{truthy}
use kryon.Refill.{
  RefillConfig, fmt, Wallet, Tx, swap, payment, Deficit, SwapPlan, keepers, native_balance,
  find_deficits, shortfall_of, plan_swap,
}

-- What a run submits, in order, and the error that it ends with, if any
pub record Run : Type 0 where
  pub sent : List Tx
  pub error : Option String

abbrev pub stopped : String → Run
stopped e = record { sent = []; error = some e }

abbrev pub done : Run
done = record { sent = []; error = none }

-- The run that goes on after an `await`
abbrev pub and_then : {A : Type 0} → Outcome A → (A → Run) → Run
and_then (thrown e) k = stopped e
and_then (ok x) k = k x

abbrev pub after : Tx → Run → Run
after tx r = record r { sent = tx ∷ r.sent }

abbrev pub pay : RefillConfig → Deficit → Tx
pay c d = payment d.keeper.address (fmt c.amounts d.need)

-- The answer to a payment is logged, also where it is an error.
unfoldable pub distribute : RefillConfig → List Deficit → Run
distribute c [] = done
distribute c (d ∷ rest) =
    let others = distribute c rest in
    and_then (c.prepared (some d.keeper) (pay c d)) (λ u. after (pay c d) others)

abbrev pub swap_tx : RefillConfig → SwapPlan → Tx
swap_tx c p = swap (fmt c.amounts p.max_usdc) (fmt c.amounts p.buy_xlm)

unfoldable pub swap_first : RefillConfig → List Deficit → Option SwapPlan → Run
unfolding distribute
swap_first c deficits none = distribute c deficits
swap_first c deficits (some p) = and_then (c.prepared none (swap_tx c p)) (λ u.
    after (swap_tx c p) (and_then (c.submitted none (swap_tx c p)) (λ hash. distribute c deficits)))

abbrev pub cover : RefillConfig → List Deficit → Option ℕ → Run
cover c deficits none = stopped "funding source account does not exist"
cover c deficits (some source_xlm) =
    and_then (plan_swap c (shortfall_of c source_xlm deficits))
      (λ plan. if c.is_execute then swap_first c deficits plan else done)

abbrev pub refill : RefillConfig → String → List Deficit → Run
refill c source [] = done
refill c source (d ∷ rest) =
    and_then (native_balance c.amounts (c.source_account source)) (cover c (d ∷ rest))

abbrev pub top_up : RefillConfig → String → List Wallet → Run
top_up c source [] = stopped "no keeper secrets configured — nothing to refill"
top_up c source (k ∷ rest) = and_then (find_deficits c (k ∷ rest)) (refill c source)

-- `process.env.REFILL_SOURCE_SECRET ?? process.env.MAINNET_DEPLOYER_SECRET`
unfoldable pub source_secret : RefillConfig → Option String
source_secret c = elim (c.env "REFILL_SOURCE_SECRET") [
  | none ↦ c.env "MAINNET_DEPLOYER_SECRET"
  | some secret ↦ some secret
]

abbrev pub with_source : RefillConfig → Option String → Run
with_source c none = stopped "invalid secret"
with_source c (some source) = top_up c source (keepers c)

unfoldable pub refill_main : RefillConfig → Run
unfolding keepers find_deficits source_secret truthy
refill_main c = elim (truthy (source_secret c)) [
  | none ↦ stopped "REFILL_SOURCE_SECRET (or MAINNET_DEPLOYER_SECRET) is not set"
  | some secret ↦ with_source c (c.public_key secret)
]
