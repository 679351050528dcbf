-- ===== src/Oracle/Reflector.antt =====
-- client/lib/stellar/reflector.ts, and `reflectorAllowsPublish` of client/scripts/oracle-keeper.ts.
use kryon.Common.{
  ℕ, ◌+◌, ◌-◌, ◌*◌, ◌/◌, ◌^◌, String, Bool, true, not, Option, none, some, ltb, ◌==◌, if◌then◌else◌,
}
use kryon.Common.Int.{ℤ, pos, negsuc}
use kryon.Database.Exec.{Outcome, ok, thrown}
use kryon.Oracle.{OracleConfig, OracleMarket, price_precision}

abbrev pub reflector_scale : ℕ
reflector_scale = price_precision / 10 ^ 14

-- The fields of what the contract returns. `price` is missing where it is null.
pub record ReflectorData : Type 0 where
  pub price : Option ℤ
  pub timestamp : Option ℕ

pub record ReflectorPrice : Type 0 where
  pub price : ℕ
  pub timestamp : ℕ

unfoldable pub unix_seconds : Option ℕ → ℕ
unix_seconds none = 0
unix_seconds (some t) = if ltb (10 ^ 12) t then t / 1000 else t

abbrev positive_round : Option ℤ → Option ℕ → Option ReflectorPrice
positive_round none t = none
positive_round (some (negsuc n)) t = none
positive_round (some (pos n)) t =
    if n * reflector_scale == 0
    then none
    else some (record { price = n * reflector_scale; timestamp = unix_seconds t })

-- `answer` is what the simulated call returns, `none` where it gives nothing or void, or throws.
unfoldable pub reflector_last_price : Outcome (Option ReflectorData) → Option ReflectorPrice
reflector_last_price (thrown e) = none
reflector_last_price (ok none) = none
reflector_last_price (ok (some d)) = positive_round d.price d.timestamp

unfoldable pub divergence_bps : ℕ → ℕ → ℕ
divergence_bps price ref =
    let diff = if ltb ref price then price - ref else ref - price in
    if ref == 0 then 0 else diff * 10000 / ref

-- The check against a round of Reflector. A round ahead of the clock has a negative age.
unfoldable pub round_allows : OracleConfig → ℕ → ℕ → ReflectorPrice → Bool
round_allows c now median ref =
    if ltb (ref.timestamp + c.reflector_max_age_secs) (now / 1000)
    then true
    else not (ltb c.reflector_divergence_halt_bps (divergence_bps median ref.price))

abbrev allows_by : OracleConfig → ℕ → ℕ → Option ReflectorPrice → Bool
allows_by c now median none = true
allows_by c now median (some ref) = round_allows c now median ref

abbrev allows_for : OracleConfig → ℕ → ℕ → Option ReflectorPrice → Option String → Bool
allows_for c now median ref none = true
allows_for c now median ref (some symbol) = allows_by c now median ref

unfoldable pub reflector_allows_publish :
    OracleConfig → ℕ → OracleMarket → ℕ → Option ReflectorPrice → Bool
reflector_allows_publish c now market median ref =
    if not c.reflector_guard_enabled
    then true
    else allows_for c now median ref market.reflector_symbol
