-- ===== src/Oracle.antt =====
-- client/scripts/oracle-keeper.ts: what the keeper publishes. Its prices are `number`s of the language, which are
-- positive and finite here; such a double is the number of its bit pattern, which has the same order.
pub mod Aggregate
pub mod Reflector
pub mod Publish
pub mod Idle
pub mod Activity
pub mod Tests
use kryon.Common.{ℕ, ◌^◌, ◌-◌, ◌/◌, String, Bool, Option, List}
use kryon.Database.Exec.{Outcome}

-- The arithmetic of doubles that are not negative. `rounded` is `BigInt(Math.round(x))`, which throws at an
-- infinite double; `double` is the double of a number.
pub record Doubles : Type 0 where
  pub plus : ℕ → ℕ → ℕ
  pub minus : ℕ → ℕ → ℕ
  pub times : ℕ → ℕ → ℕ
  pub over : ℕ → ℕ → ℕ
  pub double : ℕ → ℕ
  pub rounded : ℕ → Outcome ℕ

abbrev pub price_precision : ℕ
price_precision = 10 ^ 18

-- The environment of the keeper. `max_source_deviation_bps` is a double; `is_mainnet` tells whether the network
-- is called so.
pub record OracleConfig : Type 0 where
  pub doubles : Doubles
  pub publish_deviation_bps : ℕ
  pub publish_heartbeat_secs : ℕ
  pub stable_deviation_bps : ℕ
  pub stable_heartbeat_secs : ℕ
  pub min_sources : ℕ
  pub max_source_deviation_bps : ℕ
  pub reflector_guard_enabled : Bool
  pub reflector_divergence_halt_bps : ℕ
  pub reflector_max_age_secs : ℕ
  pub publish_time_backdate_secs : ℕ
  pub activity_check_interval_ms : ℕ
  pub idle_grace_secs : ℕ
  pub dry_run : Bool
  pub is_mainnet : Bool

pub record OracleMarket : Type 0 where
  pub oracle_symbol : String
  pub base_asset : String
  pub price_source_symbol : String
  pub reflector_symbol : Option String

-- `now` is the clock in milliseconds, beyond the time by which it is set back.
unfoldable pub ledger_safe_publish_time : OracleConfig → ℕ → ℕ
ledger_safe_publish_time c now = now / 1000 - c.publish_time_backdate_secs
