-- ===== src/Stats.antt =====
-- client/lib/stats.ts: the realized profit of a fill and the events that record it.
pub mod Recorded
pub mod Tests
use kryon.Common.{
  ℕ, ◌+◌, ◌-◌, ◌*◌, ◌/◌, String, ◌<>◌, Bool, true, false, not, ◌&&◌, Option, none, some, List, [],
  ◌∷◌, ◌++◌, ltb, ◌==◌, str_eq, if◌then◌else◌, find, any,
}
use kryon.Common.Int.{ℤ, pos, negsuc, sub_ℕ, ◌-ℤ◌, ◌*ℤ◌, ◌/ℤ◌}

unfoldable pub price_precision : ℕ
price_precision = 1000000000000000000

-- Sizes and prices of positions and fills are not negative.
pub record RawPos : Type 0 where
  pub market_id : ℕ
  pub is_long : Bool
  pub size : ℕ
  pub entry_price : ℕ

abbrev pub is_opposite : ℕ → Bool → RawPos → Bool
is_opposite market_id fill_is_long p =
    p.market_id == market_id
    && (if p.is_long then not fill_is_long else fill_is_long)
    && ltb 0 p.size

abbrev pub price_delta : RawPos → ℕ → ℤ
price_delta p fill_price =
    if p.is_long then sub_ℕ fill_price p.entry_price else sub_ℕ p.entry_price fill_price

abbrev pub realized_of : ℕ → ℕ → Option RawPos → ℤ
realized_of fill_size fill_price none = pos 0
realized_of fill_size fill_price (some p) =
    let close_size = if ltb p.size fill_size then p.size else fill_size in
    if close_size == 0 then pos 0 else pos close_size *ℤ price_delta p fill_price /ℤ price_precision

unfoldable pub realized_pnl_for_fill : List RawPos → ℕ → Bool → ℕ → ℕ → ℤ
unfolding find price_precision
realized_pnl_for_fill positions market_id fill_is_long fill_size fill_price =
    realized_of fill_size fill_price (find (is_opposite market_id fill_is_long) positions)

unfoldable pub notional_1e7 : ℕ → ℕ → ℕ
unfolding price_precision
notional_1e7 size price = size * price / price_precision

pub data EventKind : Type 0 where
  realized_trade fee : EventKind

-- A row of the table of events, without what the database fills in
pub record PnlEvent : Type 0 where
  pub network : String
  pub address : String
  pub market_id : ℕ
  pub kind : EventKind
  pub amount : ℤ
  pub size : ℕ
  pub price : ℕ
  pub ledger : ℕ
  pub tx_hash : String
  pub ref_key : String

abbrev same_kind : EventKind → EventKind → Bool
same_kind realized_trade realized_trade = true
same_kind realized_trade fee = false
same_kind fee realized_trade = false
same_kind fee fee = true

-- The unique index on the network, the address, the kind and the key
unfoldable pub same_event : PnlEvent → PnlEvent → Bool
same_event e f =
    str_eq e.network f.network
    && str_eq e.address f.address
    && same_kind e.kind f.kind
    && str_eq e.ref_key f.ref_key

-- `INSERT … ON CONFLICT … DO NOTHING`
unfoldable pub insert_event : PnlEvent → List PnlEvent → List PnlEvent
unfolding any same_event
insert_event e table = if any (same_event e) table then table else table ++ e ∷ []

pub record FillSide : Type 0 where
  pub address : String
  pub is_long : Bool
  pub positions_before : List RawPos
  pub fee : ℤ

pub record FillArgs : Type 0 where
  pub network : String
  pub market_id : ℕ
  pub tx_hash : String
  pub ledger : ℕ
  pub fill_size : ℕ
  pub fill_price : ℕ
  pub maker : FillSide
  pub taker : FillSide

abbrev is_zero : ℤ → Bool
is_zero (pos n) = n == 0
is_zero (negsuc n) = false

abbrev is_positive : ℤ → Bool
is_positive (pos n) = ltb 0 n
is_positive (negsuc n) = false

-- The statements that `recordFillPnl` runs for one side, in order
unfoldable pub side_events : FillArgs → FillSide → String → List PnlEvent
unfolding realized_pnl_for_fill
side_events a who tag =
    let realized =
      realized_pnl_for_fill who.positions_before a.market_id who.is_long a.fill_size a.fill_price in
    let key = a.tx_hash <> ":" <> tag in
    (if not (is_zero realized)
      then record {
        network = a.network;
        address = who.address;
        market_id = a.market_id;
        kind = realized_trade;
        amount = realized;
        size = a.fill_size;
        price = a.fill_price;
        ledger = a.ledger;
        tx_hash = a.tx_hash;
        ref_key = key;
      }
        ∷ []
      else [])
    ++ (if is_positive who.fee
        then record {
          network = a.network;
          address = who.address;
          market_id = a.market_id;
          kind = fee;
          amount = pos 0 -ℤ who.fee;
          size = 0;
          price = a.fill_price;
          ledger = a.ledger;
          tx_hash = a.tx_hash;
          ref_key = key <> ":fee";
        }
          ∷ []
        else [])

unfoldable pub fill_events : FillArgs → List PnlEvent
unfolding side_events
fill_events a = side_events a a.maker "maker" ++ side_events a a.taker "taker"

unfoldable pub insert_events : List PnlEvent → List PnlEvent → List PnlEvent
unfolding insert_event
insert_events [] table = table
insert_events (e ∷ rest) table = insert_events rest (insert_event e table)

unfoldable pub record_fill_pnl : FillArgs → List PnlEvent → List PnlEvent
unfolding insert_events fill_events
record_fill_pnl a table = insert_events (fill_events a) table
