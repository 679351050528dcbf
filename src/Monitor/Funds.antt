-- ===== src/Monitor/Funds.antt =====
-- The checks of client/scripts/monitor.ts on the operators and on each market: balances, funding, insurance.
use Prim.Native.String.{compare as compare_text}
use Prim.Native.Nat.{Ordering}
use kryon.Common.{
  ℕ, zero, suc, ◌+◌, ◌-◌, ◌/◌, ◌^◌, String, ◌<>◌, Bool, true, false, not, Option, none, some, List,
  [], ◌∷◌, ltb, leb, ◌==◌, if◌then◌else◌, to_decimal, join,
}
use kryon.Common.Int.{ℤ, pos, negsuc}
use kryon.Database.Exec.{Outcome, ok, thrown}
use kryon.Matcher.Sort.{sort}
use kryon.Reconciler.Rollback.{truthy}
use kryon.Monitor.Checks.{
  MonitoredMarket, Operator, MonitorConfig, HorizonAnswer, MonitorAnswers, Verdict, healthy,
  problem, collect, or_zero,
}
use kryon.Monitor.Lags.{is_ok_status}

abbrev configured : MonitorConfig → Option String → Option String
configured c none = none
configured c (some key) = truthy (c.env key)

unfoldable pub operator_address : MonitorConfig → String → Option String → Option String
unfolding truthy
operator_address c secret_env pubkey_env = elim (configured c pubkey_env) [
  | some address ↦ some address
  | none ↦ elim (truthy (c.env secret_env)) [ none ↦ none | some secret ↦ c.public_key secret ]
]

abbrev with_address : String → Option String → List Operator → List Operator
with_address name none rest = rest
with_address name (some address) rest = record { name = name; address = address } ∷ rest

unfoldable pub operators : MonitorConfig → List Operator
unfolding operator_address
operators c = with_address "oracle" (operator_address c "ORACLE_PUBLISHER_SECRET" none) (
    with_address "matcher"
      (operator_address c "MATCHER_OPERATOR_SECRET" (some "MATCHER_OPERATOR_PUBKEY"))
      (with_address "liquidator" (operator_address c "LIQUIDATOR_SECRET" none) (
        with_address "ttl-keeper" (operator_address c "TTL_KEEPER_SECRET" none)
          (with_address "funding-keeper" (operator_address c "FUNDING_KEEPER_SECRET" none) []))))

-- The double of the balance, 0 where there is none: 0 is the bit pattern of the double 0.
abbrev on_horizon : MonitorConfig → Operator → Outcome HorizonAnswer → Outcome Verdict
on_horizon c o (thrown e) = thrown e
on_horizon c o (ok h) =
    if h.status == 404
    then ok (problem (o.name <> " account does not exist (merged or unfunded)"))
    else if not (is_ok_status h.status)
    then ok (problem (o.name <> " horizon HTTP " <> to_decimal h.status))
    else if c.less (or_zero h.native) c.operator_xlm_warn
    then ok (
        problem (
          o.name
          <> " has "
          <> c.to_fixed 2 (or_zero h.native)
          <> " XLM (< "
          <> c.number_text c.operator_xlm_warn
          <> ")"))
    else ok (healthy (o.name <> "=" <> c.to_fixed 1 (or_zero h.native)))

unfoldable pub operator_verdict : MonitorConfig → MonitorAnswers → Operator → Outcome Verdict
operator_verdict c a o = on_horizon c o (a.horizon o)

-- `Array.prototype.sort` of texts, which orders them by their characters
abbrev before_text : String → String → Bool
before_text s t = elim (compare_text s t) [ Ordering.lt ↦ true | _ ↦ false ]

-- The problems as the error of the check, or else its results, sorted, with a text after them
abbrev pub sorted_text : String → Outcome (List String × List String) → Outcome String
sorted_text unit (thrown e) = thrown e
sorted_text unit (ok (results, [])) = ok (join ", " (sort before_text results) <> unit)
sorted_text unit (ok (results, p ∷ problems)) = thrown (join "; " (p ∷ problems))

abbrev on_operators : MonitorConfig → MonitorAnswers → List Operator → Outcome String
on_operators c a [] = ok "no operator keys configured"
on_operators c a (o ∷ rest) = sorted_text " XLM" (collect (operator_verdict c a) (o ∷ rest))

-- The requests are awaited together; their lines are taken in the order of the operators.
unfoldable pub check_operator_balances : MonitorConfig → MonitorAnswers → Outcome String
unfolding collect operator_verdict operators
check_operator_balances c a = on_operators c a (operators c)

abbrev on_last_update : MonitorConfig → MonitorAnswers → MonitoredMarket → ℕ → Outcome Verdict
on_last_update c a m zero = ok (problem (m.symbol <> " funding never initialised"))
on_last_update c a m (suc n) =
    let now = a.funding_now / 1000 in
    if ltb (c.funding_stale_alert_secs + suc n) now
    then ok (
        problem (
          m.symbol
          <> " funding "
          <> to_decimal (now - suc n)
          <> "s stale (max "
          <> to_decimal c.funding_stale_alert_secs
          <> "s)"))
    else ok (
        healthy (
          m.symbol
          <> "="
          <> (if ltb now (suc n) then "-" <> to_decimal (suc n - now) else to_decimal (now - suc n))
          <> "s"))

abbrev on_funding_state :
    MonitorConfig → MonitorAnswers → MonitoredMarket → Outcome (Option (Option ℕ)) → Outcome Verdict
on_funding_state c a m (thrown e) = thrown e
on_funding_state c a m (ok none) = ok (problem (m.symbol <> " funding_state unreadable"))
on_funding_state c a m (ok (some last_update)) = on_last_update c a m (or_zero last_update)

unfoldable pub funding_verdict : MonitorConfig → MonitorAnswers → MonitoredMarket → Outcome Verdict
funding_verdict c a m = on_funding_state c a m (a.funding_state m)

unfoldable pub check_funding_freshness : MonitorConfig → MonitorAnswers → Outcome String
unfolding collect funding_verdict
check_funding_freshness c a = sorted_text "" (collect (funding_verdict c a) c.markets)

abbrev is_below : ℤ → ℕ → Bool
is_below (pos n) k = ltb n k
is_below (negsuc n) k = true

abbrev is_unbounded : ℤ → Bool
is_unbounded (pos n) = leb (2 ^ 127 - 1) n
is_unbounded (negsuc n) = false

abbrev on_coverage : MonitorConfig → MonitoredMarket → Outcome (Option ℤ) → Outcome Verdict
on_coverage c m (thrown e) = thrown e
on_coverage c m (ok none) = ok (healthy (m.symbol <> "=n/a"))
on_coverage c m (ok (some bps)) =
    if is_unbounded bps
    then ok (healthy (m.symbol <> "=idle"))
    else if is_below bps c.insurance_coverage_warn_bps
    then ok (
        problem (
          m.symbol
          <> " insurance covers "
          <> c.percent bps
          <> "% of open interest (< "
          <> c.percent (pos c.insurance_coverage_warn_bps)
          <> "%)"))
    else ok (healthy (m.symbol <> "=" <> c.percent bps <> "%"))

unfoldable pub coverage_verdict : MonitorConfig → MonitorAnswers → MonitoredMarket → Outcome Verdict
coverage_verdict c a m = on_coverage c m (a.insurance_coverage m)

unfoldable pub check_insurance_coverage : MonitorConfig → MonitorAnswers → Outcome String
unfolding collect coverage_verdict
check_insurance_coverage c a = sorted_text "" (collect (coverage_verdict c a) c.markets)
