-- ===== src/Oracle/Aggregate/Sourced.antt =====
-- What an aggregated price rests on, stated of the answers in the order in which they stand.
use kryon.Common.{
  ℕ, ◌^◌, ◌/◌, ◌-◌, ◌≤◌, ◌<◌, ◌≡◌, refl, sym, subst, ◌∙◌, ◌⊎◌, inl, inr, Bool, none, some, List, [],
  ◌∷◌, length, keep, ltb, leb, arith, In, if◌then◌else◌, Bool-cases, ◌==◌,
}
use kryon.Database.Exec.{Outcome, ok, thrown}
use kryon.Matcher.Sort.{sort, sort-In, sort-IsSorted, IsSorted, length-sort, length-keep-sort}
use kryon.Oracle.{Doubles, OracleConfig, price_precision, ledger_safe_publish_time}
use kryon.Oracle.Aggregate.{
  AggregatedPrice, fulfilled, get_or, median, spread_bps, spread_confidence, with_price,
  aggregate_sorted, aggregate_price,
}
use kryon.Oracle.Aggregate.Ranked.{
  below, above, get_or-In, below-get_or-le, above-get_or-le, IsMedian, odd, even, median-IsMedian,
}

pub record IsAggregate (c : OracleConfig) (now : ℕ) (prices : List ℕ) (agg : AggregatedPrice)
    : Type 0 where
  pub enough : c.min_sources ≤ length prices
  pub low : ℕ
  pub high : ℕ
  pub low_answered : In low prices
  pub lowest : below low prices ≡ 0
  pub high_answered : In high prices
  pub highest : above high prices ≡ 0
  pub close :
      let f = c.doubles in
      f.times (f.over (f.minus high low) low) (f.double 10000) ≤ c.max_source_deviation_bps
  pub mid : ℕ
  pub centred : IsMedian c.doubles prices mid
  pub priced : c.doubles.rounded (c.doubles.times mid (c.doubles.double (10 ^ 18))) ≡ ok agg.price
  pub half_spread : ℕ
  pub spread :
      let f = c.doubles in
      f.rounded (f.times (f.over (f.minus high low) (f.double 2)) (f.double (10 ^ 18)))
      ≡ ok half_spread
  pub confident : (agg.price / 1000 ≤ agg.confidence) × (half_spread ≤ agg.confidence)
  pub tight : (agg.confidence ≡ agg.price / 1000) ⊎ (agg.confidence ≡ half_spread)
  pub dated : agg.publish_time ≡ now / 1000 - c.publish_time_backdate_secs
  pub counted : agg.sources ≡ length prices

-- What the two roundings give
record IsRounded (c : OracleConfig) (now n spread : ℕ) (price : Outcome ℕ) (agg : AggregatedPrice)
    : Type 0 where
  price_lem : price ≡ ok agg.price
  half_spread : ℕ
  spread_lem : c.doubles.rounded spread ≡ ok half_spread
  confident : (agg.price / 1000 ≤ agg.confidence) × (half_spread ≤ agg.confidence)
  tight : (agg.confidence ≡ agg.price / 1000) ⊎ (agg.confidence ≡ half_spread)
  dated : agg.publish_time ≡ now / 1000 - c.publish_time_backdate_secs
  counted : agg.sources ≡ n

with_price-IsRounded :
    (c : OracleConfig) (now : ℕ) (prices : List ℕ) (spread : ℕ) (price rounded : Outcome ℕ)
    (agg : AggregatedPrice)
    → c.doubles.rounded spread ≡ rounded
    → with_price c now prices spread price ≡ ok (some agg)
    → IsRounded c now (length prices) spread price agg
unfolding ledger_safe_publish_time
with_price-IsRounded c now prices spread (thrown e) rounded agg q h = absurd (ground (arith, h))
with_price-IsRounded c now prices spread (ok price) (thrown e) agg q h =
    absurd (ground (arith, rw q at h))
with_price-IsRounded c now prices spread (ok price) (ok half) agg q h =
    let g = rw q at h in
    record {
      price_lem = ground (arith, g);
      half_spread = half;
      spread_lem = q;
      confident = (ground (arith, g), ground (arith, g));
      tight = ground (arith, g);
      dated = ground (arith, g);
      counted = ground (arith, g);
    }

aggregate_sorted-IsAggregate :
    (c : OracleConfig) (now : ℕ) (xs : List ℕ) (agg : AggregatedPrice)
    → IsSorted leb xs
    → aggregate_sorted c now xs ≡ ok (some agg)
    → IsAggregate c now xs agg
unfolding aggregate_sorted spread_bps spread_confidence
aggregate_sorted-IsAggregate c now [] agg s h = elim (Bool-cases (0 == c.min_sources)) [
  | inl e ↦ absurd (ground (arith, e, h))
  | inr e ↦ absurd (ground (arith, e, h))
]
aggregate_sorted-IsAggregate c now (low ∷ rest) agg s h =
    elim (Bool-cases (ltb (length (low ∷ rest)) c.min_sources)) [
      | inl e ↦ absurd (ground (arith, rw e at h))
      | inr e ↦ by_spread (ground (arith, e)) (rw e at h)
    ]
  where
    high : ℕ
    high = get_or (low ∷ rest) (length rest) 0

    spread : ℕ
    spread = spread_bps c.doubles low high

    price : Outcome ℕ
    price =
        c.doubles.rounded
          (c.doubles.times (median c.doubles (low ∷ rest)) (c.doubles.double price_precision))

    by_price :
        c.min_sources ≤ length (low ∷ rest)
        → spread ≤ c.max_source_deviation_bps
        → with_price c now (low ∷ rest) (spread_confidence c.doubles low high) price ≡ ok (some agg)
        → IsAggregate c now (low ∷ rest) agg
    by_price enough close g =
        let r = with_price-IsRounded c now (low ∷ rest) _ price _ agg refl g in
        let some_price : 0 < length (low ∷ rest) = omega arith in
        let least = below-get_or-le (low ∷ rest) 0 s some_price in
        let greatest = above-get_or-le (low ∷ rest) (length rest) s (omega arith) in
        record {
          enough = enough;
          low = low;
          high = high;
          low_answered = inl refl;
          lowest = unfold get_or in omega (arith, least);
          high_answered = get_or-In (low ∷ rest) (length rest) (omega arith);
          highest = omega (arith, greatest);
          close = close;
          mid = median c.doubles (low ∷ rest);
          centred = median-IsMedian c.doubles (low ∷ rest) s some_price;
          priced = r.price_lem;
          half_spread = r.half_spread;
          spread = r.spread_lem;
          confident = r.confident;
          tight = r.tight;
          dated = r.dated;
          counted = r.counted;
        }

    by_spread :
        c.min_sources ≤ length (low ∷ rest)
        → (if ltb c.max_source_deviation_bps spread
            then ok none
            else with_price c now (low ∷ rest) (spread_confidence c.doubles low high) price)
          ≡ ok (some agg)
        → IsAggregate c now (low ∷ rest) agg
    by_spread enough g = elim (Bool-cases (ltb c.max_source_deviation_bps spread)) [
      | inl e ↦ absurd (ground (arith, rw e at g))
      | inr e ↦ by_price enough (ground (arith, e)) (rw e at g)
    ]

module _ (f : Doubles) {xs ys : List ℕ}
    (counts : (p : ℕ → Bool) → length (keep p xs) ≡ length (keep p ys))
    (total : length xs ≡ length ys) (within : (x : ℕ) → In x xs → In x ys) where
  IsMedian-resort : {m : ℕ} → IsMedian f xs m → IsMedian f ys m
  IsMedian-resort (odd {m} parity h) = odd (omega (arith, total, parity)) (record {
    member = within m h.member;
    few_below = omega (arith, h.few_below, counts (λ p. ltb p m), total);
    few_above = omega (arith, h.few_above, counts (λ p. ltb m p), total);
  })
  IsMedian-resort (even {x} {y} parity h) = even (omega (arith, total, parity)) (record {
    lower = within x h.lower;
    upper = within y h.upper;
    lower_below = omega (arith, h.lower_below, counts (λ p. ltb p x), total);
    lower_above = omega (arith, h.lower_above, counts (λ p. ltb x p), total);
    upper_below = omega (arith, h.upper_below, counts (λ p. ltb p y), total);
    upper_above = omega (arith, h.upper_above, counts (λ p. ltb y p), total);
  })

IsAggregate-resort :
    (c : OracleConfig) (now : ℕ) (prices : List ℕ) (agg : AggregatedPrice)
    → IsAggregate c now (sort leb prices) agg
    → IsAggregate c now prices agg
IsAggregate-resort c now prices agg h =
    let counts : (p : ℕ → Bool) → length (keep p (sort leb prices)) ≡ length (keep p prices) =
      λ p. length-keep-sort leb p prices in
    let total = length-sort leb prices in
    let within : (x : ℕ) → In x (sort leb prices) → In x prices = λ x i. sort-In leb x prices i in
    record {
      enough = subst (λ n. c.min_sources ≤ n) total h.enough;
      low = h.low;
      high = h.high;
      low_answered = within h.low h.low_answered;
      lowest = sym (counts (λ p. ltb p h.low)) ∙ h.lowest;
      high_answered = within h.high h.high_answered;
      highest = sym (counts (λ p. ltb h.high p)) ∙ h.highest;
      close = h.close;
      mid = h.mid;
      centred = IsMedian-resort c.doubles counts total within h.centred;
      priced = h.priced;
      half_spread = h.half_spread;
      spread = h.spread;
      confident = h.confident;
      tight = h.tight;
      dated = h.dated;
      counted = h.counted ∙ total;
    }

-- A price that aggregatePrice answers is that of at least MIN_SOURCES answers, in whatever order these stand, the
-- least and the greatest of which do not differ by more than the limit. It is the rounded median: of an odd number of
-- answers the one with less than half of them below it and less than half above it, and of an even number the middle
-- of the two next to the middle. The confidence is the greater of a thousandth of the price and half the difference of
-- the greatest and the least answer, rounded, and the time is the clock set back by the configured seconds.
pub aggregate_price-IsAggregate :
    (c : OracleConfig) (now : ℕ) (settled : List (Outcome ℕ)) (agg : AggregatedPrice)
    → aggregate_price c now settled ≡ ok (some agg)
    → IsAggregate c now (fulfilled settled) agg
unfolding aggregate_price
aggregate_price-IsAggregate c now settled agg h = IsAggregate-resort c now (fulfilled settled) agg (
    aggregate_sorted-IsAggregate c now (sort leb (fulfilled settled)) agg
      (sort-IsSorted leb (λ a b e. ground arith) (λ a b d e g. ground arith) (fulfilled settled)) h)
