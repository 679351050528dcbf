-- ===== src/Collateral/Tests.antt =====
-- A vault that has listed USDC, and USDT0 with a cap, and not XLM.
use kryon.Common.{
  ◌≡◌, refl, true, false, none, some, [], ◌∷◌, List, str_eq, if◌then◌else◌, find, any,
}
use kryon.Database.Exec.{ok}
use kryon.Collateral.{
  CollateralAsset, ListedCollateral, VaultConfig, settlement_asset, list_vault_collateral,
  list_active, config_of, get_deposit_cap, get_total_deposited, headroom, round_to_bridgeable,
  has_trustline,
}
use kryon.Collateral.Listed.{Lists, is_active, list_vault_collateral-Lists}

abbrev usdc : CollateralAsset
usdc = record {
  code = "USDC";
  contract = "CA";
  issuer = some "GA";
  settlement = true;
  bridge_decimals = none;
}

abbrev usdt0 : CollateralAsset
usdt0 = record {
  code = "USDT0";
  contract = "CB";
  issuer = some "GB";
  settlement = false;
  bridge_decimals = some 6;
}

abbrev xlm : CollateralAsset
xlm = record {
  code = "XLM";
  contract = "CC";
  issuer = none;
  settlement = false;
  bridge_decimals = none;
}

abbrev vault : VaultConfig
vault = record {
  first_asset = usdc;
  other_assets = usdt0 ∷ xlm ∷ [];
  collateral_view =
      λ k. ok (if str_eq k "CC" then none else some (record { haircut_bps = 500; active = true }));
  deposit_cap_view = λ k. ok (if str_eq k "CB" then some (some 1000) else none);
  total_deposited_view = λ k. ok (some 400);
  balances = λ address. ok (some []);
}

abbrev entries : List ListedCollateral
entries =
    record {
      asset = usdc;
      haircut_bps = 500;
      deposit_cap = none;
      total_deposited = 400;
      cap_headroom = none;
    }
    ∷ record {
      asset = usdt0;
      haircut_bps = 500;
      deposit_cap = some 1000;
      total_deposited = 400;
      cap_headroom = some 600;
    }
    ∷ []

list_vault_collateral-run : list_vault_collateral vault ≡ ok entries
unfolding list_vault_collateral list_active config_of settlement_asset find get_deposit_cap
    get_total_deposited headroom
list_vault_collateral-run = refl

settlement_view :
    vault.collateral_view (settlement_asset vault).contract
    ≡ ok (some (record { haircut_bps = 500; active = true }))
unfolding settlement_asset find
settlement_view = refl

-- No trustline is needed for XLM, and there is none for USDC.
has_trustline-run : (has_trustline vault "GX" xlm ≡ true) × (has_trustline vault "GX" usdc ≡ false)
unfolding has_trustline any
has_trustline-run = (refl, refl)

list_vault_collateral-Lists_example :
    Lists
      (is_active vault (record { haircut_bps = 500; active = true }))
      (usdc ∷ usdt0 ∷ xlm ∷ [])
      entries
list_vault_collateral-Lists_example =
    list_vault_collateral-Lists vault (record { haircut_bps = 500; active = true }) entries
      settlement_view list_vault_collateral-run

round_to_bridgeable-run : round_to_bridgeable 12345678 usdt0 ≡ 12345670
unfolding round_to_bridgeable
round_to_bridgeable-run = refl
