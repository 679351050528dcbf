-- ===== src/Matcher/Fills/Sizes.antt =====
-- The matcher never fills an order beyond its size, whichever of its statements fail.
use kryon.Common.{ℕ, ◌≤◌, All-update_where, String, Bool-cases, inl, inr, Option, none, some, any}
use kryon.Matcher.Order.{RestingOrder, MatchResult}
use kryon.Matcher.Config.{Config, SettleResult, hash, reason}
use kryon.Matcher.Fills.{
  persist_fill, rollback_fill, insert_fill, delete_fill, set_market, same_fill,
}
use kryon.Matcher.Settlement.{
  upsert_job, record_settlement_failure, execute_settlement, after_submit, after_simulation,
}
use kryon.Matcher.Loading.{
  load_resting_orders, load_market_orders, load_oracle_price, markets_with_open_orders,
}
use kryon.Matcher.Tick.{
  cancel_order, cancel_poison_order, quarantine, settle_or_rollback, process_match, tick_market,
  tick,
}
use kryon.Database.{FillRow, MarketRow, TxJob, JobPayload}
use kryon.Database.Orders.{
  IsWithin, raise_filled, lower_filled, raise_filled-IsWithin, lower_filled-IsWithin,
}
use kryon.Database.Exec.{
  World, Keeps, Keeps-sql, Keeps-sql_at, Keeps-sum_await, keeps_rules, sql, sql_at,
}

insert_fill-Keeps : (f : FillRow) → Keeps IsWithin (sql (insert_fill f))
unfolding insert_fill
insert_fill-Keeps f =
    Keeps-sql _
      λ db h. elim (Bool-cases (any (same_fill f) db.fills)) [ inl e ↦ rw e h | inr e ↦ rw e h ]

delete_fill-Keeps : (network tx : String) → Keeps IsWithin (sql (delete_fill network tx))
unfolding delete_fill
delete_fill-Keeps network tx = Keeps-sql _ (λ db h. h)

set_market-Keeps : (id : ℕ) (f : MarketRow → MarketRow) → Keeps IsWithin (sql (set_market id f))
unfolding set_market
set_market-Keeps id f = Keeps-sql _ (λ db h. h)

raise_filled-Keeps : (id : String) (n : ℕ) → Keeps IsWithin (sql (raise_filled id n))
raise_filled-Keeps id n = Keeps-sql _ (raise_filled-IsWithin id n)

lower_filled-Keeps : (id : String) (n : ℕ) → Keeps IsWithin (sql (lower_filled id n))
lower_filled-Keeps id n = Keeps-sql _ (lower_filled-IsWithin id n)

upsert_job-Keeps :
    (j : ℕ → TxJob) (f : ℕ → TxJob → TxJob)
    → Keeps IsWithin (sql_at (λ now. upsert_job (j now) (f now)))
unfolding upsert_job
upsert_job-Keeps j f = Keeps-sql_at _ (λ now db h. h)

cancel_order-Keeps : (id : String) → Keeps IsWithin (sql (cancel_order id))
unfolding cancel_order
cancel_order-Keeps id =
    Keeps-sql _ λ db h. All-update_where (λ r. r.filled_size ≤ r.size) _ _ (λ r e k. k) db.orders h

ruleset statements = (
  keeps_rules, insert_fill-Keeps, delete_fill-Keeps, set_market-Keeps, raise_filled-Keeps,
  lower_filled-Keeps, upsert_job-Keeps,
)

persist_fill-Keeps : (network : String) (m : MatchResult) → Keeps IsWithin (persist_fill network m)
unfolding persist_fill
persist_fill-Keeps network m = search statements depth 14

rollback_fill-Keeps :
    (network : String) (m : MatchResult) → Keeps IsWithin (rollback_fill network m)
unfolding rollback_fill
rollback_fill-Keeps network m = search statements depth 14

record_failure-Keeps :
    (network fill_hash why : String)
    → Keeps IsWithin (record_settlement_failure network fill_hash why)
unfolding record_settlement_failure
record_failure-Keeps network fill_hash why = search statements depth 6

module _ (c : Config) where
  after_submit-Keeps :
      (fill_hash : String) (r : SettleResult) → Keeps IsWithin (after_submit c fill_hash r)
  after_submit-Keeps fill_hash (hash tx) = search statements depth 6
  after_submit-Keeps fill_hash (reason why) = search (statements, record_failure-Keeps) depth 6

  after_simulation-Keeps :
      (m : MatchResult) (fill_hash : String) (p : Option JobPayload)
      → Keeps IsWithin (after_simulation c m fill_hash p)
  after_simulation-Keeps m fill_hash none = search (statements, record_failure-Keeps) depth 6
  after_simulation-Keeps m fill_hash (some p) = search statements depth 6

  execute_settlement-Keeps : (m : MatchResult) → Keeps IsWithin (execute_settlement c m)
  unfolding execute_settlement
  execute_settlement-Keeps m =
      search (keeps_rules, after_submit-Keeps, after_simulation-Keeps) depth 8

  settle_or_rollback-Keeps : (m : MatchResult) → Keeps IsWithin (settle_or_rollback c m)
  unfolding settle_or_rollback
  settle_or_rollback-Keeps m =
      search (keeps_rules, execute_settlement-Keeps, rollback_fill-Keeps, record_failure-Keeps)
        depth 8

  quarantine-Keeps : (o : RestingOrder) → Keeps IsWithin (quarantine c o)
  unfolding quarantine cancel_poison_order
  quarantine-Keeps o = search (keeps_rules, cancel_order-Keeps) depth 6

  process_match-Keeps :
      (oracle : Option ℕ) (m : MatchResult) → Keeps IsWithin (process_match c oracle m)
  unfolding process_match
  process_match-Keeps oracle m =
      search (keeps_rules, quarantine-Keeps, persist_fill-Keeps, settle_or_rollback-Keeps) depth 14

  tick_market-Keeps : (market_id : ℕ) → Keeps IsWithin (tick_market c market_id)
  unfolding tick_market load_resting_orders load_market_orders load_oracle_price
  tick_market-Keeps market_id =
      search (keeps_rules, Keeps-sql, Keeps-sql_at, Keeps-sum_await, process_match-Keeps) depth 12

  tick-Keeps : Keeps IsWithin (tick c)
  unfolding tick markets_with_open_orders
  tick-Keeps = search (keeps_rules, Keeps-sql_at, Keeps-sum_await, tick_market-Keeps) depth 8

  -- From tables in which no order is filled beyond its size, a tick of the matcher leads to such
  -- tables, whichever of its statements throw and whatever the chain answers.
  pub tick-IsWithin : (w : World) → IsWithin w.db → IsWithin (tick c w).1.db
  tick-IsWithin w h = tick-Keeps.at w h
