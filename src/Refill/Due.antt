-- ===== src/Refill/Due.antt =====
-- The deficits that a run of the refill finds.
use kryon.Common.{
  ℕ, ◌≡◌, refl, subst, ◌∙◌, inl, inr, Option, none, some, List, [], ◌∷◌, arith, Bool-cases, In, All,
  Bool, false, not, keep, map, ap, if◌then◌else◌,
}
use mathlib.Core.List.{foldl}
use kryon.Database.Exec.{Outcome, ok, thrown}
use kryon.Refill.{
  Amounts, total_need, shortfall_of, source_xlm_reserve, RefillConfig, Wallet, Deficit,
  native_balance, with_have, find_deficits,
}

-- A deficit that one of the keepers has
abbrev pub IsDue : RefillConfig → List Wallet → Deficit → Type 0
IsDue c ks d =
    In d.keeper ks
    × (native_balance c.amounts (c.account_of d.keeper) ≡ ok (some d.have))
    × (c.amounts.at_least d.have c.keeper_xlm_floor ≡ false)
    × (d.need ≡ c.amounts.minus c.keeper_xlm_target d.have)

-- The keeper has an account, whose balance is not at least the floor.
abbrev pub is_low_at : RefillConfig → Outcome (Option ℕ) → Bool
is_low_at c (ok (some have)) = not (c.amounts.at_least have c.keeper_xlm_floor)
is_low_at c (ok none) = false
is_low_at c (thrown e) = false

abbrev pub is_low : RefillConfig → Wallet → Bool
is_low c k = is_low_at c (native_balance c.amounts (c.account_of k))

-- What is missing for the sum of the deficits, if the source keeps 3 XLM.
abbrev pub missing_xlm : RefillConfig → ℕ → List Deficit → ℕ
missing_xlm c source_xlm ds =
    let f = c.amounts in
    f.larger (f.double 0) (
      f.minus (foldl f.plus (f.double 0) (map (λ d. d.need) ds))
        (f.larger (f.double 0) (f.minus source_xlm (f.double 3))))

total_need_lem :
    (f : Amounts) (sum : ℕ) (ds : List Deficit)
    → total_need f sum ds ≡ foldl f.plus sum (map (λ d. d.need) ds)
unfolding total_need
total_need_lem f sum [] = refl
total_need_lem f sum (d ∷ ds) = total_need_lem f (f.plus sum d.need) ds

pub shortfall_of_lem :
    (c : RefillConfig) (source_xlm : ℕ) (ds : List Deficit)
    → shortfall_of c source_xlm ds ≡ missing_xlm c source_xlm ds
unfolding shortfall_of source_xlm_reserve
shortfall_of_lem c source_xlm ds =
    let f = c.amounts in
    ap
      (λ n.
        f.larger (f.double 0) (f.minus n (f.larger (f.double 0) (f.minus source_xlm (f.double 3)))))
      (total_need_lem f (f.double 0) ds)

module _ (c : RefillConfig) where
  IsDue-weaken :
      (k : Wallet) (ks : List Wallet) (ds : List Deficit)
      → All (IsDue c ks) ds
      → All (IsDue c (k ∷ ks)) ds
  IsDue-weaken k ks [] h = tt
  IsDue-weaken k ks (d ∷ ds) ((m, read, low, need), h) =
      ((inr m, read, low, need), IsDue-weaken k ks ds h)

  pub find_deficits-IsDue :
      (ks : List Wallet) (ds : List Deficit) → find_deficits c ks ≡ ok ds → All (IsDue c ks) ds
  unfolding find_deficits
  find_deficits-IsDue [] [] h = tt
  find_deficits-IsDue [] (d ∷ ds) h = absurd (ground (arith, h))
  find_deficits-IsDue (k ∷ ks) ds h =
      by_answers (find_deficits-IsDue ks) (native_balance c.amounts (c.account_of k)) refl
        (find_deficits c ks) refl h
    where
      by_answers :
          ((es : List Deficit) → find_deficits c ks ≡ ok es → All (IsDue c ks) es)
          → (r : Outcome (Option ℕ)) → native_balance c.amounts (c.account_of k) ≡ r
          → (others : Outcome (List Deficit)) → find_deficits c ks ≡ others
          → with_have c k r others ≡ ok ds
          → All (IsDue c (k ∷ ks)) ds
      by_answers ih (thrown e) read others e2 g = absurd (ground (arith, g))
      by_answers ih (ok none) read others e2 g = IsDue-weaken k ks ds (ih ds (e2 ∙ g))
      by_answers ih (ok (some have)) read (thrown e) e2 g = absurd (ground (arith, g))
      by_answers ih (ok (some have)) read (ok es) e2 g =
          let before = IsDue-weaken k ks es (ih es e2) in
          elim (Bool-cases (c.amounts.at_least have c.keeper_xlm_floor)) [
            | inl full ↦
                let q : es ≡ ds = grind (arith, full, g) in subst (All (IsDue c (k ∷ ks))) q before
            | inr low ↦
                let d : Deficit = record {
                  keeper = k;
                  have = have;
                  need = c.amounts.minus c.keeper_xlm_target have;
                } in
                let q : d ∷ es ≡ ds = grind (arith, low, g) in
                subst (All (IsDue c (k ∷ ks))) q ((inl refl, read, low, refl), before)
          ]

  with_have-keepers :
      (k : Wallet) (ks : List Wallet) (ds : List Deficit) (r : Outcome (Option ℕ))
      (others : Outcome (List Deficit))
      → ((es : List Deficit) → others ≡ ok es → map (λ d. d.keeper) es ≡ keep (is_low c) ks)
      → with_have c k r others ≡ ok ds
      → map (λ d. d.keeper) ds
        ≡ (if is_low_at c r then k ∷ keep (is_low c) ks else keep (is_low c) ks)
  with_have-keepers k ks ds (thrown e) others ih h = absurd (ground (arith, h))
  with_have-keepers k ks ds (ok none) others ih h = ih ds h
  with_have-keepers k ks ds (ok (some have)) (thrown e) ih h = absurd (ground (arith, h))
  with_have-keepers k ks ds (ok (some have)) (ok es) ih h =
      elim (Bool-cases (c.amounts.at_least have c.keeper_xlm_floor)) [
        | inl full ↦
            let same : es ≡ ds = grind (arith, full, h) in
            rw full (subst (λ xs. map (λ d. d.keeper) xs ≡ keep (is_low c) ks) same (ih es refl))
        | inr low ↦
            let d : Deficit = record {
              keeper = k;
              have = have;
              need = c.amounts.minus c.keeper_xlm_target have;
            } in
            let same : d ∷ es ≡ ds = grind (arith, low, h) in
            rw low (
              subst (λ xs. map (λ x. x.keeper) xs ≡ k ∷ keep (is_low c) ks) same
                (ap (λ xs. k ∷ xs) (ih es refl)))
      ]

  -- Each keeper whose balance is low has one deficit, in the order of the keepers.
  pub find_deficits-keepers :
      (ks : List Wallet) (ds : List Deficit)
      → find_deficits c ks ≡ ok ds
      → map (λ d. d.keeper) ds ≡ keep (is_low c) ks
  unfolding find_deficits keep
  find_deficits-keepers [] [] h = refl
  find_deficits-keepers [] (d ∷ ds) h = absurd (ground (arith, h))
  find_deficits-keepers (k ∷ ks) ds h =
      with_have-keepers k ks ds (native_balance c.amounts (c.account_of k)) (find_deficits c ks)
        (find_deficits-keepers ks) h
