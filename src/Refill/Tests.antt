-- ===== src/Refill/Tests.antt =====
-- Two keepers: the oracle keeper is below the floor, the liquidator is not, and the source has to buy.
use kryon.Common.{
  ◌-◌, ◌+◌, ◌*◌, ◌/◌, ◌≡◌, refl, ◌⊎◌, true, none, some, [], ◌∷◌, ltb, leb, str_eq, if◌then◌else◌,
  ◌==◌,
}
use kryon.Database.Exec.{ok}
use kryon.Reconciler.Rollback.{truthy}
use kryon.Refill.{
  Amounts, fmt, strip_zeros, strip_dot, RefillConfig, loaded, swap, payment, keepers,
  keeper_address, native_balance, find_deficits, total_need, shortfall_of, max_usdc_of, plan_swap,
  source_xlm_reserve,
}
use kryon.Refill.Main.{distribute, swap_first, source_secret, refill_main}
use kryon.Refill.Capped.{IsRefill, refill_main-IsRefill}

-- In hundredths
abbrev amounts : Amounts
amounts = record {
  less = ltb;
  at_least = λ a b. leb b a;
  plus = λ a b. a + b;
  minus = λ a b. a - b;
  times = λ a b. a * b / 100;
  over = λ a b. a * 100 / b;
  larger = λ a b. if ltb a b then b else a;
  double = λ n. n * 100;
  to_fixed =
      λ n. if n == 9000 then "90.0000000" else if n == 3300 then "33.0000000" else "0.0000000";
}

abbrev config : RefillConfig
config = record {
  amounts = amounts;
  env = λ key.
      if str_eq key "REFILL_SOURCE_SECRET"
      then some "S"
      else if str_eq key "ORACLE_PUBLISHER_SECRET"
      then some "O"
      else if str_eq key "LIQUIDATOR_SECRET"
      then some "L"
      else none;
  public_key = λ s. some s;
  is_execute = true;
  keeper_xlm_floor = 2500;
  keeper_xlm_target = 10000;
  refill_max_usdc = 5000;
  refill_slippage_bps = 1000000;
  account_of = λ k. loaded (some (if str_eq k.address "O" then 1000 else 3000));
  source_account = λ s. loaded (some 6000);
  best_path = λ amount. ok (some 1650);
  prepared = λ k tx. ok tt;
  submitted = λ k tx. ok "hash";
}

refill_main-run : (refill_main config).sent ≡ swap "33" "33" ∷ payment "O" "90" ∷ []
unfolding refill_main keepers keeper_address native_balance find_deficits total_need shortfall_of
    max_usdc_of plan_swap distribute swap_first fmt strip_zeros strip_dot source_secret
    source_xlm_reserve truthy
refill_main-run = refl

refill_main-IsRefill_example :
    ((refill_main config).sent ≡ []) ⊎ IsRefill config (refill_main config).sent
refill_main-IsRefill_example = refill_main-IsRefill config
