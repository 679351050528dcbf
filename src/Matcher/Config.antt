-- ===== src/Matcher/Config.antt =====
-- What client/scripts/matcher-service.ts reads of its environment, and the services that it calls.
use kryon.Common.{ℕ, String, Bool, Option, List}
use kryon.Matcher.Order.{MatchResult}
use kryon.Database.{JobPayload}
use kryon.Database.Exec.{World, Outcome}

-- `hash` of the transaction that settled a fill, or the reason why none did.
pub data SettleResult : Type 0 where
  hash reason : String → SettleResult

-- The functions stand for code of client/lib that talks to a Stellar node or wraps its SDK. What they
-- answer may differ from call to call, and they may throw.
pub record Config : Type 0 where
  pub network : String
  pub passphrase : String
  pub markets : List ℕ
  pub max_deviation_bps : ℕ
  -- submitSettleFillSigned and simulateSettleFill of lib/stellar/settlement.ts
  pub submit_settle_fill_signed : MatchResult → String → World → Outcome SettleResult
  pub simulate_settle_fill : MatchResult → String → World → Outcome (Option JobPayload)
  -- verifySignedMessage of lib/market/signed-intent.ts, pubkeyHexFromAddress of signing-message.ts
  pub verify_signed_message : String → String → String → Bool
  pub pubkey_hex_from_address : String → String
