-- ===== src/Oracle/Publish/Safe.antt =====
-- What the oracle keeper writes to the network, and when.
use kryon.Common.{
  ℕ, ◌+◌, ◌/◌, ◌≤◌, ◌≡◌, refl, ◌⊎◌, inl, inr, String, Bool, true, false, Option, none, some, ◌∷◌,
  if◌then◌else◌, arith, ltb,
}
use kryon.Database.Exec.{Outcome, ok, thrown}
use kryon.Oracle.{OracleConfig, OracleMarket, price_precision}
use kryon.Oracle.Aggregate.{AggregatedPrice, aggregate_price, fulfilled}
use kryon.Oracle.Aggregate.Sourced.{IsAggregate}
use kryon.Oracle.Reflector.{ReflectorPrice, reflector_last_price, divergence_bps}
use kryon.Oracle.Publish.Due.{IsDue}
use kryon.Oracle.Publish.{
  PriceWrite, OracleState, write_price, write_if, MarketAnswers, market_sources, StableAnswers,
  stable_sources, peg_deviation_bps, publish_price, publish_sourced, publish_stable,
}

-- A round of Reflector for the market that is not too old does not diverge by more than the limit.
abbrev pub Agrees : OracleConfig → OracleMarket → MarketAnswers → ℕ → Type 0
Agrees c market a price =
    (symbol : String) (ref : ReflectorPrice)
    → c.reflector_guard_enabled ≡ true
    → market.reflector_symbol ≡ some symbol
    → reflector_last_price a.reflector ≡ some ref
    → a.now / 1000 ≤ ref.timestamp + c.reflector_max_age_secs
    → divergence_bps price ref.price ≤ c.reflector_divergence_halt_bps

-- A branch, each side with what the test says.
if_either :
    {A : Type 0} (P : A → Type 0) (b : Bool) (x y : A)
    → (b ≡ true → P x)
    → (b ≡ false → P y)
    → P (if b then x else y)
if_either P true x y h k = h refl
if_either P false x y h k = k refl

-- A call of `writePrice` submits one price, whatever it answers.
write_price-writes :
    (now : ℕ) (w : PriceWrite) (written : Outcome Bool) (s : OracleState)
    → (write_price now w written s).writes ≡ w ∷ s.writes
unfolding write_price
write_price-writes now w (thrown e) s = refl
write_price-writes now w (ok true) s = refl
write_price-writes now w (ok false) s = refl

write_if-writes :
    (now : ℕ) (w : PriceWrite) (written : Outcome Bool) (s : OracleState) (due : Outcome Bool)
    → ((write_if now w written s due).writes ≡ s.writes)
      ⊎ (((write_if now w written s due).writes ≡ w ∷ s.writes) × (due ≡ ok true))
write_if-writes now w written s (thrown e) = inl refl
write_if-writes now w written s (ok false) = inl refl
write_if-writes now w written s (ok true) = inr (write_price-writes now w written s, refl)

-- What a write of `publishMarket` rests on.
pub record IsMarketWrite (c : OracleConfig) (market : OracleMarket) (a : MarketAnswers)
    (s : OracleState) (agg : AggregatedPrice) : Type 0 where
  pub sourced : IsAggregate c a.now (fulfilled (market_sources a)) agg
  pub agrees : Agrees c market a agg.price
  pub due : IsDue c s a.now market.oracle_symbol agg.price
  pub live : c.dry_run ≡ false

-- What a write of `publishStable` rests on.
pub record IsStableWrite (c : OracleConfig) (symbol : String) (halt_bps : ℕ) (a : StableAnswers)
    (w : PriceWrite) : Type 0 where
  pub named : w.symbol ≡ symbol
  pub near_peg : peg_deviation_bps w.price ≤ halt_bps
  pub sourced :
      (c.is_mainnet ≡ true)
      → (agg : AggregatedPrice) × (aggregate_price c a.now (stable_sources a) ≡ ok (some agg))
        × (w.price ≡ agg.price)

publish_price-writes :
    (c : OracleConfig) (symbol : String) (a : StableAnswers) (s : OracleState)
    (price confidence : ℕ)
    → let t = publish_price c symbol a s price confidence in
      (t.writes ≡ s.writes)
      ⊎ ((w : PriceWrite) × (t.writes ≡ w ∷ s.writes) × (w.symbol ≡ symbol) × (w.price ≡ price))
unfolding publish_price
publish_price-writes c symbol a s price confidence =
    let written = λ (t : OracleState).
      (t.writes ≡ s.writes)
      ⊎ ((w : PriceWrite) × (t.writes ≡ w ∷ s.writes) × (w.symbol ≡ symbol) × (w.price ≡ price)) in
    if_either written c.dry_run _ _ (λ dry. inl refl)
      λ live. elim (write_if-writes a.confirmed_at _ a.written s _) [
        | inl same ↦ inl same
        | inr (new, due) ↦ inr (_, new, refl, refl)
      ]

publish_sourced-writes :
    (c : OracleConfig) (symbol : String) (halt_bps : ℕ) (a : StableAnswers) (s : OracleState)
    (r : Outcome (Option AggregatedPrice))
    → aggregate_price c a.now (stable_sources a) ≡ r
    → let t = publish_sourced c symbol halt_bps a s r in
      (t.writes ≡ s.writes)
      ⊎ ((w : PriceWrite) × (t.writes ≡ w ∷ s.writes) × IsStableWrite c symbol halt_bps a w)
unfolding peg_deviation_bps
publish_sourced-writes c symbol halt_bps a s (thrown e) h = inl refl
publish_sourced-writes c symbol halt_bps a s (ok none) h =
    let written = λ (t : OracleState).
      (t.writes ≡ s.writes)
      ⊎ ((w : PriceWrite) × (t.writes ≡ w ∷ s.writes) × IsStableWrite c symbol halt_bps a w) in
    if_either written c.is_mainnet _ _ (λ main. inl refl)
      λ test. elim (publish_price-writes c symbol a s price_precision (price_precision / 1000)) [
        | inl same ↦ inl same
        | inr (w, new, name, price) ↦ inr (
          w,
          new,
          record {
            named = name;
            near_peg = rw price (omega arith);
            sourced = λ main. cc (main, test);
          },
        )
      ]
publish_sourced-writes c symbol halt_bps a s (ok (some agg)) h =
    let written = λ (t : OracleState).
      (t.writes ≡ s.writes)
      ⊎ ((w : PriceWrite) × (t.writes ≡ w ∷ s.writes) × IsStableWrite c symbol halt_bps a w) in
    if_either written (ltb halt_bps (peg_deviation_bps agg.price)) _ _ (λ far. inl refl)
      λ near. elim (publish_price-writes c symbol a s agg.price agg.confidence) [
        | inl same ↦ inl same
        | inr (w, new, name, price) ↦ inr (
          w,
          new,
          record {
            named = name;
            near_peg = rw price (ground (arith, near));
            sourced = λ main. (agg, h, price);
          },
        )
      ]

-- A call of `publishStable` submits nothing, or one price of the symbol that is off the peg by at most the
-- limit, and on mainnet that price is the median of the sources.
pub publish_stable-writes :
    (c : OracleConfig) (symbol : String) (halt_bps : ℕ) (a : StableAnswers) (s : OracleState)
    → ((publish_stable c symbol halt_bps a s).writes ≡ s.writes)
      ⊎ ((w : PriceWrite) × ((publish_stable c symbol halt_bps a s).writes ≡ w ∷ s.writes)
          × IsStableWrite c symbol halt_bps a w)
unfolding publish_stable
publish_stable-writes c symbol halt_bps a s = publish_sourced-writes c symbol halt_bps a s _ refl
