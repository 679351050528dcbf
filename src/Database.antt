-- ===== src/Database.antt =====
-- The tables that the services share (kryon-protocol/prisma/schema.prisma), the SQL statements on them
-- and the way a service runs them.
pub mod Exec
pub mod Orders
use kryon.Common.{ℕ, String, Bool, Option, List}
use kryon.Matcher.Order.{RestingOrder}

pub record OrderRow : Type 0 where
  pub order : RestingOrder
  pub open order use *
  pub cancelled : Bool

pub record FillRow : Type 0 where
  pub network : String
  pub market_id : ℕ
  pub maker : String
  pub maker_nonce : ℕ
  pub taker : String
  pub taker_nonce : ℕ
  pub fill_size : ℕ
  pub fill_price : ℕ
  pub tx_hash : String
  pub ledger : ℕ

pub record MarketRow : Type 0 where
  pub id : ℕ
  pub last_price : ℕ
  pub last_oracle_price : Option ℕ
  pub volume : ℕ

-- The JSON object in the column `unsignedXdr`.
pub record JobPayload : Type 0 where
  pub maker_address : Option String
  pub taker_address : Option String
  pub assembled_tx_xdr : Option String
  pub maker_signed_entry : Option String
  pub taker_signed_entry : Option String
  pub fill_size : Option ℕ
  pub pending_tx_hash : Option String
  pub maker_nonce : Option ℕ
  pub taker_nonce : Option ℕ

pub data TxStatus : Type 0 where
  queued submitted confirmed failed : TxStatus

-- `unsigned_xdr` is `none` where the column is NULL or does not parse.
pub record TxJob : Type 0 where
  pub id : ℕ
  pub network : String
  pub kind : String
  pub payload_hash : String
  pub unsigned_xdr : Option JobPayload
  pub status : TxStatus
  pub last_error : Option String
  pub submitted_hash : Option String
  pub attempts : ℕ
  pub created_at : ℕ
  pub updated_at : ℕ

-- `accounts` are the addresses that the table of accounts has.
pub record Db : Type 0 where
  pub orders : List OrderRow
  pub fills : List FillRow
  pub markets : List MarketRow
  pub jobs : List TxJob
  pub accounts : List String
