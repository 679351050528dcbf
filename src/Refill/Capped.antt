-- ===== src/Refill/Capped.antt =====
-- What a run of the refill can submit.
use kryon.Common.{
  ℕ, ◌≡◌, refl, subst, sym, ap, ◌∙◌, ◌⊎◌, inl, inr, String, Bool, true, false, Option, none, some,
  List, [], ◌∷◌, ◌++◌, if◌then◌else◌, map, keep, arith, Bool-cases, All,
}
use kryon.Database.Exec.{Outcome, ok, thrown}
use kryon.Reconciler.Rollback.{truthy}
use kryon.Refill.{
  RefillConfig, fmt, Wallet, Tx, Deficit, SwapPlan, keepers, native_balance, find_deficits,
  shortfall_of, on_path, plan_swap, max_usdc_of,
}
use kryon.Refill.Main.{
  Run, stopped, done, and_then, pay, distribute, swap_tx, swap_first, cover, refill, top_up,
  source_secret, with_source, refill_main,
}
use kryon.Refill.Due.{
  IsDue, is_low, missing_xlm, shortfall_of_lem, find_deficits-IsDue, find_deficits-keepers,
}

abbrev pub IsPrefix : List Tx → List Tx → Type 0
IsPrefix xs ys = (rest : List Tx) × (xs ++ rest ≡ ys)

-- What goes before the payments: nothing, if nothing is missing, or one swap within the cap, and payments
-- only after the network confirmed it.
abbrev pub IsBought : RefillConfig → ℕ → List Tx → List Tx → Type 0
IsBought c shortfall swapped paid =
    ((c.amounts.less (c.amounts.double 0) shortfall ≡ false) × (swapped ≡ []))
    ⊎ ((p : SwapPlan) × (p.buy_xlm ≡ shortfall)
        × (c.amounts.less c.refill_max_usdc p.max_usdc ≡ false)
        × (swapped ≡ swap_tx c p ∷ [])
        × (((hash : String) × (c.submitted none (swap_tx c p) ≡ ok hash)) ⊎ (paid ≡ [])))

pub record IsRefill (c : RefillConfig) (sent : List Tx) : Type 0 where
  pub executed : c.is_execute ≡ true
  pub deficits : List Deficit
  pub due : All (IsDue c (keepers c)) deficits
  pub each_once : map (λ d. d.keeper) deficits ≡ keep (is_low c) (keepers c)
  pub source : String
  pub source_xlm : ℕ
  pub balance : native_balance c.amounts (c.source_account source) ≡ ok (some source_xlm)
  pub swapped : List Tx
  pub paid : List Tx
  pub bought : IsBought c (missing_xlm c source_xlm deficits) swapped paid
  pub together : sent ≡ swapped ++ paid
  pub in_order : IsPrefix paid (map (pay c) deficits)

and_then-cases :
    {A : Type 0} (P : Run → Type 0) (r : Outcome A) (k : A → Run)
    → ((e : String) → P (stopped e))
    → ((x : A) → r ≡ ok x → P (k x))
    → P (and_then r k)
and_then-cases P (ok x) k h g = g x refl
and_then-cases P (thrown e) k h g = h e

module _ (c : RefillConfig) where
  distribute-IsPrefix : (ds : List Deficit) → IsPrefix (distribute c ds).sent (map (pay c) ds)
  unfolding distribute
  distribute-IsPrefix [] = ([], refl)
  distribute-IsPrefix (d ∷ ds) =
      and_then-cases (λ r. IsPrefix r.sent (map (pay c) (d ∷ ds)))
        (c.prepared (some d.keeper) (pay c d)) _ (λ e. (map (pay c) (d ∷ ds), refl))
        (λ u e. let (rest, q) = distribute-IsPrefix ds in (rest, ap (λ xs. pay c d ∷ xs) q))

  plan_swap-cases :
      (shortfall : ℕ) (plan : Option SwapPlan)
      → plan_swap c shortfall ≡ ok plan
      → ((c.amounts.less (c.amounts.double 0) shortfall ≡ false) × (plan ≡ none))
        ⊎ ((p : SwapPlan) × (p.buy_xlm ≡ shortfall)
            × (c.amounts.less c.refill_max_usdc p.max_usdc ≡ false)
            × (plan ≡ some p))
  unfolding plan_swap
  plan_swap-cases shortfall plan h =
      elim (Bool-cases (c.amounts.less (c.amounts.double 0) shortfall)) [
        | inl short ↦ inr (by_path (c.best_path (fmt c.amounts shortfall)) (rw short at h))
        | inr covered ↦ inl (covered, grind (arith, covered, h))
      ]
    where
      by_path :
          (r : Outcome (Option ℕ))
          → on_path c shortfall r ≡ ok plan
          → (p : SwapPlan) × (p.buy_xlm ≡ shortfall)
            × (c.amounts.less c.refill_max_usdc p.max_usdc ≡ false)
            × (plan ≡ some p)
      by_path (thrown e) g = absurd (ground (arith, g))
      by_path (ok none) g = absurd (ground (arith, g))
      by_path (ok (some quoted)) g =
          elim (Bool-cases (c.amounts.less c.refill_max_usdc (max_usdc_of c quoted))) [
            | inl over ↦ absurd (grind (arith, over, g))
            | inr within ↦ (_, refl, within, grind (arith, within, g))
          ]

  -- The deficits of the keepers, each once, in their order
  abbrev AreDue : List Wallet → List Deficit → Type 0
  AreDue ks ds = All (IsDue c ks) ds × (map (λ d. d.keeper) ds ≡ keep (is_low c) ks)

  -- Nothing, or a refill
  Sends : Run → Type 0
  Sends r = (r.sent ≡ []) ⊎ IsRefill c r.sent

  module _ (source : String) (source_xlm : ℕ)
      (balance : native_balance c.amounts (c.source_account source) ≡ ok (some source_xlm))
      (executed : c.is_execute ≡ true) (ds : List Deficit) (due : AreDue (keepers c) ds) where
    bought-Sends :
        (swapped paid : List Tx)
        → IsBought c (shortfall_of c source_xlm ds) swapped paid
        → IsPrefix paid (map (pay c) ds)
        → IsRefill c (swapped ++ paid)
    bought-Sends swapped paid bought in_order = record {
      executed = executed;
      deficits = ds;
      due = due.0;
      each_once = due.1;
      source = source;
      source_xlm = source_xlm;
      balance = balance;
      swapped = swapped;
      paid = paid;
      bought = subst (λ n. IsBought c n swapped paid) (shortfall_of_lem c source_xlm ds) bought;
      together = refl;
      in_order = in_order;
    }

    swap_first-Sends :
        (plan : Option SwapPlan)
        → plan_swap c (shortfall_of c source_xlm ds) ≡ ok plan
        → Sends (swap_first c ds plan)
    unfolding swap_first Sends
    swap_first-Sends none h = elim (plan_swap-cases _ none h) [
      | inl (covered, e) ↦ inr (bought-Sends [] _ (inl (covered, refl)) (distribute-IsPrefix ds))
      | inr (p, buys, within, e) ↦ absurd (ground (arith, e))
    ]
    swap_first-Sends (some p) h = elim (plan_swap-cases _ (some p) h) [
      | inl (covered, e) ↦ absurd (ground (arith, e))
      | inr (q, buys, within, e) ↦
          let same : q ≡ p = ground (arith, e) in
          by_swap (ap (λ y. y.buy_xlm) (sym same) ∙ buys)
            (ap (λ y. c.amounts.less c.refill_max_usdc y.max_usdc) (sym same) ∙ within)
    ]
      where
        by_swap :
            p.buy_xlm ≡ shortfall_of c source_xlm ds
            → c.amounts.less c.refill_max_usdc p.max_usdc ≡ false
            → Sends (swap_first c ds (some p))
        by_swap buys within =
            and_then-cases Sends (c.prepared none (swap_tx c p)) _ (λ e. inl refl)
              (λ u e. inr (
                and_then-cases (λ r. IsRefill c (swap_tx c p ∷ r.sent))
                  (c.submitted none (swap_tx c p)) _
                  (λ f.
                    bought-Sends (swap_tx c p ∷ []) [] (inr (p, buys, within, refl, inr refl))
                      (map (pay c) ds, refl))
                  (λ hash confirmed.
                    bought-Sends (swap_tx c p ∷ []) (distribute c ds).sent
                      (inr (p, buys, within, refl, inl (hash, confirmed)))
                      (distribute-IsPrefix ds))))

  cover-Sends :
      (source : String) (ds : List Deficit)
      → AreDue (keepers c) ds
      → (x : Option ℕ) → native_balance c.amounts (c.source_account source) ≡ ok x
      → Sends (cover c ds x)
  unfolding Sends
  cover-Sends source ds due none balance = inl refl
  cover-Sends source ds due (some x) balance =
      and_then-cases Sends (plan_swap c (shortfall_of c x ds)) _ (λ e. inl refl)
        (λ plan planned. by_flag plan planned c.is_execute refl)
    where
      by_flag :
          (plan : Option SwapPlan)
          → plan_swap c (shortfall_of c x ds) ≡ ok plan
          → (b : Bool) → c.is_execute ≡ b
          → Sends (if b then swap_first c ds plan else done)
      by_flag plan planned true executed =
          swap_first-Sends source x balance executed ds due plan planned
      by_flag plan planned false dry = inl refl

  refill-Sends :
      (source : String) (ds : List Deficit) → AreDue (keepers c) ds → Sends (refill c source ds)
  unfolding Sends
  refill-Sends source [] due = inl refl
  refill-Sends source (d ∷ rest) due =
      and_then-cases Sends (native_balance c.amounts (c.source_account source)) _ (λ e. inl refl)
        (λ x balance. cover-Sends source (d ∷ rest) due x balance)

  top_up-Sends : (source : String) (ks : List Wallet) → keepers c ≡ ks → Sends (top_up c source ks)
  unfolding Sends
  top_up-Sends source [] e = inl refl
  top_up-Sends source (k ∷ rest) e =
      and_then-cases Sends (find_deficits c (k ∷ rest)) _ (λ f. inl refl)
        (λ ds found. refill-Sends source ds (
          subst (λ ks. AreDue ks ds) (sym e)
            (
              find_deficits-IsDue c (k ∷ rest) ds found,
              find_deficits-keepers c (k ∷ rest) ds found,
            )))

  with_source-Sends : (source : Option String) → Sends (with_source c source)
  unfolding Sends
  with_source-Sends none = inl refl
  with_source-Sends (some source) = top_up-Sends source (keepers c) refl

-- A run submits nothing, or it was told to execute, and submits what goes before the payments, and then payments. Those
-- are the first of these, in this order: one for each keeper that has an account with a balance below the floor, in the
-- order of the keepers, of the target less that balance. Before them goes nothing, when what the source has beyond 3 XLM
-- covers their sum, and otherwise one swap for what is missing, of at most the capped amount of USDC, without whose
-- confirmation no payment follows.
pub refill_main-IsRefill :
    (c : RefillConfig) → ((refill_main c).sent ≡ []) ⊎ IsRefill c (refill_main c).sent
unfolding refill_main Sends
refill_main-IsRefill c = by_secret (truthy (source_secret c))
  where
    by_secret :
        (secret : Option String)
        → Sends c (elim secret [
          | none ↦ stopped "REFILL_SOURCE_SECRET (or MAINNET_DEPLOYER_SECRET) is not set"
          | some s ↦ with_source c (c.public_key s)
        ])
    by_secret none = inl refl
    by_secret (some s) = with_source-Sends c (c.public_key s)
