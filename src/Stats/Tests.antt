-- ===== src/Stats/Tests.antt =====
-- A fill of 3 units at price 110 between a maker who closes a long position of 2 and a taker who has none.
use kryon.Common.{◌*◌, ◌≡◌, refl, false, true, List, [], ◌∷◌, find, any, take}
use kryon.Common.Int.{pos, negsuc, ◌-ℤ◌, ◌*ℤ◌, ◌/ℤ◌}
use kryon.Stats.{
  RawPos, PnlEvent, FillArgs, realized_trade, fee, realized_pnl_for_fill, record_fill_pnl,
  fill_events, side_events, insert_events, insert_event, same_event, price_precision,
}
use kryon.Stats.Recorded.{record_fill_pnl_again}

abbrev positions : List RawPos
positions =
    record {
      market_id = 1;
      is_long = true;
      size = 20000000;
      entry_price = 100 * 1000000000000000000;
    }
    ∷ []

abbrev args : FillArgs
args = record {
  network = "testnet";
  market_id = 1;
  tx_hash = "tx";
  ledger = 9;
  fill_size = 30000000;
  fill_price = 110 * 1000000000000000000;
  maker = record { address = "GM"; is_long = false; positions_before = positions; fee = pos 5 };
  taker = record { address = "GT"; is_long = true; positions_before = []; fee = pos 0 };
}

-- Two units gain 10 each.
realized_pnl_for_fill-run :
    realized_pnl_for_fill positions 1 false 30000000 (110 * 1000000000000000000) ≡ pos 200000000
unfolding realized_pnl_for_fill find price_precision ◌*ℤ◌ ◌/ℤ◌
realized_pnl_for_fill-run = refl

abbrev event : PnlEvent
event = record {
  network = "testnet";
  address = "GM";
  market_id = 1;
  kind = realized_trade;
  amount = pos 200000000;
  size = 30000000;
  price = 110 * 1000000000000000000;
  ledger = 9;
  tx_hash = "tx";
  ref_key = "tx:maker";
}

record_fill_pnl-run :
    record_fill_pnl args []
    ≡ event
      ∷ record event { kind = fee; amount = negsuc 4; size = 0; ref_key = "tx:maker:fee" }
      ∷ []
unfolding record_fill_pnl fill_events side_events realized_pnl_for_fill insert_events insert_event
    same_event any find price_precision ◌*ℤ◌ ◌/ℤ◌ ◌-ℤ◌
record_fill_pnl-run = refl

-- The call threw after its first statement.
record_fill_pnl_again_example :
    record_fill_pnl args (insert_events (take 1 (fill_events args)) []) ≡ record_fill_pnl args []
record_fill_pnl_again_example = record_fill_pnl_again args 1 []
