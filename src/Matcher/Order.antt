-- ===== src/Matcher/Order.antt =====
-- The in-memory order and match of client/scripts/matcher-service.ts.
-- `bigint` fields are natural numbers: order intake rejects what is not positive, and the writers of
-- `filledSize` clamp it at 0. A `Date` is its time in milliseconds.
use kryon.Common.{ℕ, String, Bool, Option}

pub record RestingOrder : Type 0 where
  pub id : String
  pub owner : String
  pub market_id : ℕ
  pub is_long : Bool
  pub size : ℕ
  pub limit_price : ℕ
  pub reduce_only : Bool
  pub nonce : ℕ
  pub expiry_ts : ℕ
  pub filled_size : ℕ
  pub created_at : ℕ
  pub signature : Option String

pub record MatchResult : Type 0 where
  pub maker : RestingOrder
  pub taker : RestingOrder
  pub fill_size : ℕ
  pub fill_price : ℕ
