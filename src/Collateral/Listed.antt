-- ===== src/Collateral/Listed.antt =====
-- What the list of collateral shows, and what a rounded withdrawal is.
use kryon.Common.{
  ◌↔◌, ◌⊎◌, ℕ, ◌≤◌, ◌<◌, ◌+◌, ◌-◌, ◌*◌, ◌/◌, ◌^◌, ◌≡◌, ◌↔◌, refl, sym, ap, subst, ◌∙◌, inl, inr,
  Bool, true, false, not, Option, none, some, List, [], ◌∷◌, map, keep, ltb, leb, if◌then◌else◌,
  arith, Bool-cases, All,
}
use native.Mathlib.Nat.{one-le-pow, div-mul-le_self, lt-div-mul-add}
use kryon.Database.Exec.{Outcome, ok, thrown}
use kryon.Collateral.{
  cap_or_none, total_or_zero, CollateralAsset, RawCollateralConfig, ListedCollateral, VaultConfig,
  collateral, settlement_asset, headroom, listed, with_amounts, with_config, config_of, add_listed,
  list_active, list_without_collateral_view, is_inferred, with_settlement, list_vault_collateral,
  round_at, round_to_bridgeable, get_deposit_cap, get_total_deposited,
}

-- The room under a cap, if there is one: a deposit of something keeps the total within the cap exactly when it is
-- within the room.
abbrev pub IsRoom : Option ℕ → ℕ → Option ℕ → Type 0
IsRoom none total room = room ≡ none
IsRoom (some cap) total room =
    (h : ℕ) × (room ≡ some h) × ((n : ℕ) → (n ≤ h) ↔ ((n ≡ 0) ⊎ (total + n ≤ cap)))

abbrev pub ShowsRoom : ListedCollateral → Type 0
ShowsRoom l = IsRoom l.deposit_cap l.total_deposited l.cap_headroom

room_iff :
    (cap total n : ℕ)
    → (n ≤ (if ltb total cap then cap - total else 0)) ↔ ((n ≡ 0) ⊎ (total + n ≤ cap))
room_iff cap total n = (λ h. by_room h (Bool-cases (ltb total cap)), λ h. by_total h)
  where
    by_room :
        n ≤ (if ltb total cap then cap - total else 0)
        → (ltb total cap ≡ true) ⊎ (ltb total cap ≡ false)
        → (n ≡ 0) ⊎ (total + n ≤ cap)
    by_room h (inl low) = inr (ground (arith, h, low))
    by_room h (inr full) = inl (ground (arith, h, full))

    by_total : (n ≡ 0) ⊎ (total + n ≤ cap) → n ≤ (if ltb total cap then cap - total else 0)
    by_total (inl e) = ground (arith, e)
    by_total (inr le) = ground (arith, le)

listed-ShowsRoom :
    (a : CollateralAsset) (haircut : ℕ) (cap : Option ℕ) (total : ℕ)
    → ShowsRoom (listed a haircut cap total)
unfolding headroom
listed-ShowsRoom a haircut none total = refl
listed-ShowsRoom a haircut (some cap) total =
    (if ltb total cap then cap - total else 0, refl, λ n. room_iff cap total n)

-- The asset is active, as far as its configuration is read.
abbrev active_of : Outcome (Option RawCollateralConfig) → Bool
active_of (thrown e) = false
active_of (ok none) = false
active_of (ok (some config)) = config.active

unfoldable pub is_active : VaultConfig → RawCollateralConfig → CollateralAsset → Bool
is_active c settlement a = active_of (config_of c settlement a)

-- The entries of the active candidates, in their order, each with its room
abbrev pub Lists : (CollateralAsset → Bool) → List CollateralAsset → List ListedCollateral → Type 0
Lists p assets ls = (map (λ l. l.asset) ls ≡ keep p assets) × All ShowsRoom ls

-- An asset that is not active is left out, and an active one has its entry.
Entered : CollateralAsset → Bool → Option ListedCollateral → Type 0
Entered a active none = active ≡ false
Entered a active (some l) = (active ≡ true) × (l.asset ≡ a) × ShowsRoom l

with_amounts-Entered :
    (a : CollateralAsset) (config : RawCollateralConfig) (cap : Outcome (Option ℕ))
    (total : Outcome ℕ) (o : Option ListedCollateral)
    → config.active ≡ true
    → with_amounts a config cap total ≡ ok o
    → Entered a config.active o
unfolding Entered
with_amounts-Entered a config (thrown e) total o on h = absurd (ground (arith, h))
with_amounts-Entered a config (ok cap) (thrown e) o on h = absurd (ground (arith, h))
with_amounts-Entered a config (ok cap) (ok total) o on h =
    let there : some (listed a config.haircut_bps cap total) ≡ o = ground (arith, h) in
    subst (Entered a config.active) there
      (on, refl, listed-ShowsRoom a config.haircut_bps cap total)

with_config-Entered :
    (c : VaultConfig) (a : CollateralAsset) (r : Outcome (Option RawCollateralConfig))
    (o : Option ListedCollateral)
    → with_config c a r ≡ ok o
    → Entered a (active_of r) o
unfolding Entered
with_config-Entered c a (thrown e) o h = absurd (ground (arith, h))
with_config-Entered c a (ok none) o h =
    let there : none ≡ o = ground (arith, h) in subst (Entered a false) there refl
with_config-Entered c a (ok (some config)) o h = elim (Bool-cases config.active) [
  | inl on ↦ with_amounts-Entered a config (get_deposit_cap c a) (get_total_deposited c a) o on (
      subst
        (λ b.
          (if not b
            then ok none
            else with_amounts a config (get_deposit_cap c a) (get_total_deposited c a))
          ≡ ok o)
        on h)
  | inr off ↦
      let there : ok none ≡ ok o =
        subst
          (λ b.
            (if not b
              then ok none
              else with_amounts a config (get_deposit_cap c a) (get_total_deposited c a))
            ≡ ok o)
          off h in
      let same : none ≡ o = ground (arith, there) in subst (Entered a config.active) same off
]

add_listed-Lists :
    (p : CollateralAsset → Bool) (a : CollateralAsset) (rest : List CollateralAsset)
    (r : Outcome (Option ListedCollateral)) (others : Outcome (List ListedCollateral))
    (ls : List ListedCollateral)
    → ((o : Option ListedCollateral) → r ≡ ok o → Entered a (p a) o)
    → ((ms : List ListedCollateral) → others ≡ ok ms → Lists p rest ms)
    → add_listed r others ≡ ok ls
    → Lists p (a ∷ rest) ls
unfolding Entered keep
add_listed-Lists p a rest (thrown e) others ls here there h = absurd (ground (arith, h))
add_listed-Lists p a rest (ok none) (thrown e) ls here there h = absurd (ground (arith, h))
add_listed-Lists p a rest (ok (some l)) (thrown e) ls here there h = absurd (ground (arith, h))
add_listed-Lists p a rest (ok none) (ok ms) ls here there h =
    let same : ms ≡ ls = ground (arith, h) in
    let off = here none refl in subst (Lists p (a ∷ rest)) same (rw off (there ms refl))
add_listed-Lists p a rest (ok (some l)) (ok ms) ls here there h =
    let same : l ∷ ms ≡ ls = ground (arith, h) in
    let (on, entry, room) = here (some l) refl in
    let (names, rooms) = there ms refl in
    subst (Lists p (a ∷ rest)) same
      (rw on (ap (λ x. l.asset ∷ x) names ∙ ap (λ x. x ∷ keep p rest) entry), (room, rooms))

list_active-Lists :
    (c : VaultConfig) (settlement : RawCollateralConfig) (assets : List CollateralAsset)
    (ls : List ListedCollateral)
    → list_active c settlement assets ≡ ok ls
    → Lists (is_active c settlement) assets ls
unfolding list_active is_active
list_active-Lists c settlement [] [] h = (unfold keep in refl, tt)
list_active-Lists c settlement [] (l ∷ ls) h = absurd (ground (arith, h))
list_active-Lists c settlement (a ∷ rest) ls h =
    add_listed-Lists (is_active c settlement) a rest (with_config c a (config_of c settlement a))
      (list_active c settlement rest) ls
      (λ o e. with_config-Entered c a (config_of c settlement a) o e)
      (λ ms e. list_active-Lists c settlement rest ms e) h

list_without-Lists :
    (c : VaultConfig) (assets : List CollateralAsset)
    → Lists (is_inferred c) assets (list_without_collateral_view c assets)
unfolding list_without_collateral_view keep
list_without-Lists c [] = (refl, tt)
list_without-Lists c (a ∷ rest) =
    let (names, rooms) = list_without-Lists c rest in
    elim (Bool-cases (is_inferred c a)) [
      | inl on ↦ rw on (
        ap (λ xs. a ∷ xs) names,
        (
          listed-ShowsRoom a 0 (cap_or_none (get_deposit_cap c a))
              (total_or_zero (get_total_deposited c a)),
          rooms,
        ),
      )
      | inr off ↦ rw off (names, rooms)
    ]

-- When the vault answers the configuration of the settlement asset, a list that is made has an entry for each of the
-- candidates that are active, in their order, and none else. A positive deposit keeps the total of an entry within its
-- cap exactly when it is within the room that the entry shows, and an entry with no cap shows none.
pub list_vault_collateral-Lists :
    (c : VaultConfig) (settlement : RawCollateralConfig) (ls : List ListedCollateral)
    → c.collateral_view (settlement_asset c).contract ≡ ok (some settlement)
    → list_vault_collateral c ≡ ok ls
    → Lists (is_active c settlement) (collateral c) ls
unfolding list_vault_collateral
list_vault_collateral-Lists c settlement ls e h =
    list_active-Lists c settlement (collateral c) ls (ap (with_settlement c) (sym e) ∙ h)

-- When the vault answers that it has no such view, a list is made whatever the other reads come to, with an entry for
-- the settlement asset and for each candidate whose cap is read.
pub list_vault_collateral_old :
    (c : VaultConfig)
    → c.collateral_view (settlement_asset c).contract ≡ ok none
    → (ls : List ListedCollateral) × (list_vault_collateral c ≡ ok ls)
      × Lists (is_inferred c) (collateral c) ls
unfolding list_vault_collateral
list_vault_collateral_old c e = (
  list_without_collateral_view c (collateral c),
  ap (with_settlement c) e,
  list_without-Lists c (collateral c),
)

-- A withdrawal of an asset that bridges with fewer than seven decimals is rounded to the greatest multiple of the
-- smallest amount that can bridge which is not above it.
round_to_bridgeable_bounds :
    (raw d : ℕ) (a : CollateralAsset)
    → a.bridge_decimals ≡ some d
    → d < 7
    → let step = 10 ^ (7 - d) in
      let rounded = round_to_bridgeable raw a in
      (rounded ≤ raw) × (raw < rounded + step) × ((k : ℕ) × (rounded ≡ k * step))
unfolding round_to_bridgeable
round_to_bridgeable_bounds raw d a e low =
    let off : leb 7 d ≡ false = ground (arith, low) in
    let positive = one-le-pow (7 - d) 10 (omega arith) in
    let below = div-mul-le_self raw (10 ^ (7 - d)) in
    let above = lt-div-mul-add {a = raw} positive in
    let same : round_at raw a.bridge_decimals ≡ raw / 10 ^ (7 - d) * 10 ^ (7 - d) =
      ap (round_at raw) e ∙ rw off refl in
    rw same (below, above, (raw / 10 ^ (7 - d), refl))
