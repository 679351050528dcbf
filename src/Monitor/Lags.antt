-- ===== src/Monitor/Lags.antt =====
-- The checks of client/scripts/monitor.ts that ask one service each: the tables, the app, the WebSocket server.
use kryon.Common.{
  ℕ, ◌+◌, ◌-◌, ◌/◌, String, ◌<>◌, Bool, not, ◌&&◌, Option, none, some, List, [], ◌∷◌, keep, ltb,
  leb, ◌==◌, if◌then◌else◌, to_decimal,
}
use kryon.Database.{Db, OrderRow}
use kryon.Database.Exec.{Outcome, ok, thrown}
use kryon.Monitor.Checks.{MonitorAnswers}

-- The rows that `checkMatcherLag` asks for. The casts to `int` and `bigint` round, and no order is from the future.
unfoldable pub is_pending_order : ℕ → OrderRow → Bool
is_pending_order now r =
    not r.cancelled
    && ltb r.filled_size r.size
    && not (r.limit_price == 0)
    && ltb ((now + 500) / 1000) r.expiry_ts

abbrev older : ℕ → Option ℕ → Option ℕ
older t none = some t
older t (some u) = if leb t u then some t else some u

-- `ORDER BY "createdAt" ASC LIMIT 1`
unfoldable pub oldest : List OrderRow → Option ℕ
oldest [] = none
oldest (r ∷ rest) = older r.created_at (oldest rest)

abbrev age_of_oldest : ℕ → Option ℕ → Option ℕ
age_of_oldest now none = none
age_of_oldest now (some t) = some ((now - t + 500) / 1000)

abbrev on_oldest_age : Option ℕ → Outcome String
on_oldest_age none = ok "no resting orders"
on_oldest_age (some age) =
    if ltb 60 age
    then thrown ("oldest pending order is " <> to_decimal age <> "s old")
    else ok ("oldest order " <> to_decimal age <> "s")

abbrev on_tables : ℕ → Outcome Db → Outcome String
on_tables now (thrown e) = thrown e
on_tables now (ok db) =
    on_oldest_age (age_of_oldest now (oldest (keep (is_pending_order now) db.orders)))

unfoldable pub check_matcher_lag : MonitorAnswers → Outcome String
unfolding is_pending_order oldest
check_matcher_lag a = on_tables a.database_now a.tables

abbrev on_market_age : Outcome (Option ℕ) → Outcome String
on_market_age (thrown e) = thrown e
on_market_age (ok none) = ok "no active markets in DB"
on_market_age (ok (some age)) =
    if ltb 60 age
    then thrown ("indexer last synced " <> to_decimal age <> "s ago")
    else ok ("last sync " <> to_decimal age <> "s ago")

unfoldable pub check_indexer_lag : MonitorAnswers → Outcome String
check_indexer_lag a = on_market_age a.market_age

-- `res.ok` of a response
abbrev pub is_ok_status : ℕ → Bool
is_ok_status s = leb 200 s && leb s 299

abbrev on_health : Outcome ℕ → Outcome String
on_health (thrown e) = thrown e
on_health (ok s) =
    if not (is_ok_status s)
    then thrown ("/api/health returned " <> to_decimal s)
    else ok ("HTTP " <> to_decimal s)

unfoldable pub check_app_health : MonitorAnswers → Outcome String
check_app_health a = on_health a.health_status

abbrev on_pong : Outcome (Unit {0}) → Outcome String
on_pong (thrown e) = thrown e
on_pong (ok u) = ok "connected + pong"

unfoldable pub check_web_socket : MonitorAnswers → Outcome String
check_web_socket a = on_pong a.pong
