-- ===== src/Collateral.antt =====
-- client/lib/stellar/collateral.ts: which assets the vault takes, how much of each, and the rounding of a withdrawal;
-- with the reads of client/lib/stellar/contracts.ts that it asks. Amounts of the vault are not negative.
pub mod Listed
pub mod Tests
use kryon.Common.{
  ℕ, ◌-◌, ◌*◌, ◌/◌, ◌^◌, String, Bool, true, false, not, ◌&&◌, ◌||◌, Option, none, some, List, [],
  ◌∷◌, ltb, leb, str_eq, if◌then◌else◌, find, any,
}
use kryon.Database.Exec.{Outcome, ok, thrown}

pub record CollateralAsset : Type 0 where
  pub code : String
  pub contract : String
  pub issuer : Option String
  pub settlement : Bool
  pub bridge_decimals : Option ℕ

pub record RawCollateralConfig : Type 0 where
  pub haircut_bps : ℕ
  pub active : Bool

pub record ListedCollateral : Type 0 where
  pub asset : CollateralAsset
  pub haircut_bps : ℕ
  pub deposit_cap : Option ℕ
  pub total_deposited : ℕ
  pub cap_headroom : Option ℕ

-- A balance of an account: its code and its issuer, if it has them
pub record Balance : Type 0 where
  pub asset_code : Option String
  pub asset_issuer : Option String

-- The candidate assets, of which there is a first, what `simulateRead` answers for each view of the vault and
-- contract, none where the simulation fails or gives nothing, and what Horizon answers for an account, none unless
-- the response is good.
pub record VaultConfig : Type 0 where
  pub first_asset : CollateralAsset
  pub other_assets : List CollateralAsset
  pub collateral_view : String → Outcome (Option RawCollateralConfig)
  pub deposit_cap_view : String → Outcome (Option (Option ℕ))
  pub total_deposited_view : String → Outcome (Option ℕ)
  pub balances : String → Outcome (Option (List Balance))

abbrev pub collateral : VaultConfig → List CollateralAsset
collateral c = c.first_asset ∷ c.other_assets

abbrev pub or_first : Option CollateralAsset → CollateralAsset → CollateralAsset
or_first none first = first
or_first (some a) first = a

-- `SETTLEMENT_ASSET`
unfoldable pub settlement_asset : VaultConfig → CollateralAsset
unfolding find
settlement_asset c = or_first (find (λ a. a.settlement) (collateral c)) c.first_asset

abbrev cap_of_view : Outcome (Option (Option ℕ)) → Outcome (Option ℕ)
cap_of_view (thrown e) = thrown e
cap_of_view (ok none) = ok none
cap_of_view (ok (some cap)) = ok cap

unfoldable pub get_deposit_cap : VaultConfig → CollateralAsset → Outcome (Option ℕ)
get_deposit_cap c a = cap_of_view (c.deposit_cap_view a.contract)

abbrev total_of_view : Outcome (Option ℕ) → Outcome ℕ
total_of_view (thrown e) = thrown e
total_of_view (ok none) = ok 0
total_of_view (ok (some n)) = ok n

unfoldable pub get_total_deposited : VaultConfig → CollateralAsset → Outcome ℕ
get_total_deposited c a = total_of_view (c.total_deposited_view a.contract)

-- `depositCap - totalDeposited > 0n ? depositCap - totalDeposited : 0n`, none where there is no cap
unfoldable pub headroom : Option ℕ → ℕ → Option ℕ
headroom none total = none
headroom (some cap) total = some (if ltb total cap then cap - total else 0)

abbrev pub listed : CollateralAsset → ℕ → Option ℕ → ℕ → ListedCollateral
listed a haircut cap total = record {
  asset = a;
  haircut_bps = haircut;
  deposit_cap = cap;
  total_deposited = total;
  cap_headroom = headroom cap total;
}

-- The cap and the total are awaited together: an error of either is thrown.
abbrev pub with_amounts :
    CollateralAsset
    → RawCollateralConfig
    → Outcome (Option ℕ)
    → Outcome ℕ
    → Outcome (Option ListedCollateral)
with_amounts a config (thrown e) total = thrown e
with_amounts a config (ok cap) (thrown e) = thrown e
with_amounts a config (ok cap) (ok total) = ok (some (listed a config.haircut_bps cap total))

abbrev pub with_config :
    VaultConfig
    → CollateralAsset
    → Outcome (Option RawCollateralConfig)
    → Outcome (Option ListedCollateral)
with_config c a (thrown e) = thrown e
with_config c a (ok none) = ok none
with_config c a (ok (some config)) =
    if not config.active
    then ok none
    else with_amounts a config (get_deposit_cap c a) (get_total_deposited c a)

-- The configuration of an asset; that of the settlement asset is not asked again.
unfoldable pub config_of :
    VaultConfig → RawCollateralConfig → CollateralAsset → Outcome (Option RawCollateralConfig)
unfolding settlement_asset
config_of c settlement a =
    if str_eq a.contract (settlement_asset c).contract
    then ok (some settlement)
    else c.collateral_view a.contract

abbrev pub add_listed :
    Outcome (Option ListedCollateral)
    → Outcome (List ListedCollateral)
    → Outcome (List ListedCollateral)
add_listed (thrown e) rest = thrown e
add_listed (ok l) (thrown e) = thrown e
add_listed (ok none) (ok rest) = ok rest
add_listed (ok (some l)) (ok rest) = ok (l ∷ rest)

-- `Promise.all` over the candidates, and the filter of what is null
unfoldable pub list_active :
    VaultConfig → RawCollateralConfig → List CollateralAsset → Outcome (List ListedCollateral)
unfolding config_of get_deposit_cap get_total_deposited
list_active c settlement [] = ok []
list_active c settlement (a ∷ rest) =
    let others = list_active c settlement rest in
    add_listed (with_config c a (config_of c settlement a)) others

abbrev pub cap_or_none : Outcome (Option ℕ) → Option ℕ
cap_or_none (thrown e) = none
cap_or_none (ok cap) = cap

abbrev pub total_or_zero : Outcome ℕ → ℕ
total_or_zero (thrown e) = 0
total_or_zero (ok n) = n

abbrev pub is_capped : Option ℕ → Bool
is_capped none = false
is_capped (some cap) = true

-- Whether a vault without the view is taken to list an asset
unfoldable pub is_inferred : VaultConfig → CollateralAsset → Bool
unfolding settlement_asset get_deposit_cap
is_inferred c a =
    str_eq a.contract (settlement_asset c).contract || is_capped (cap_or_none (get_deposit_cap c a))

unfoldable pub list_without_collateral_view :
    VaultConfig → List CollateralAsset → List ListedCollateral
unfolding is_inferred get_total_deposited
list_without_collateral_view c [] = []
list_without_collateral_view c (a ∷ rest) =
    let others = list_without_collateral_view c rest in
    if not (is_inferred c a)
    then others
    else listed a 0 (cap_or_none (get_deposit_cap c a)) (total_or_zero (get_total_deposited c a))
      ∷ others

abbrev pub with_settlement :
    VaultConfig → Outcome (Option RawCollateralConfig) → Outcome (List ListedCollateral)
with_settlement c (thrown e) = thrown e
with_settlement c (ok none) = ok (list_without_collateral_view c (collateral c))
with_settlement c (ok (some settlement)) = list_active c settlement (collateral c)

unfoldable pub list_vault_collateral : VaultConfig → Outcome (List ListedCollateral)
unfolding list_active list_without_collateral_view settlement_asset
list_vault_collateral c = with_settlement c (c.collateral_view (settlement_asset c).contract)

abbrev is_text : Option String → String → Bool
is_text none t = false
is_text (some s) t = str_eq s t

abbrev on_balances : CollateralAsset → String → Outcome (Option (List Balance)) → Bool
on_balances a issuer (thrown e) = true
on_balances a issuer (ok none) = true
on_balances a issuer (ok (some balances)) =
    any (λ b. is_text b.asset_code a.code && is_text b.asset_issuer issuer) balances

abbrev if_issued : VaultConfig → String → CollateralAsset → Option String → Bool
if_issued c address a none = true
if_issued c address a (some issuer) =
    if str_eq issuer "" then true else on_balances a issuer (c.balances address)

unfoldable pub has_trustline : VaultConfig → String → CollateralAsset → Bool
unfolding any
has_trustline c address a = if_issued c address a a.issuer

abbrev pub round_at : ℕ → Option ℕ → ℕ
round_at raw none = raw
round_at raw (some d) = if leb 7 d then raw else let step = 10 ^ (7 - d) in raw / step * step

-- `bridgeDecimals` is a whole number.
unfoldable pub round_to_bridgeable : ℕ → CollateralAsset → ℕ
round_to_bridgeable raw a = round_at raw a.bridge_decimals
