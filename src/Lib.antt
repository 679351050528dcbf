-- ===== src/Lib.antt =====
-- Verification of the off-chain services of the Kryon perpetual-futures exchange (TypeScript).
--
-- The exchange settles fills on-chain; the services of client/ keep the order book, match orders, and
-- move fills and settlement jobs through a shared PostgreSQL database. This library models that code.
--
-- The parts, and where each is modelled:
--
--   Common             shared names, Boolean tests, lists, membership, the `for` loop with `break` and
--                      `continue` (`for_each`), signed integers, numbers as text.
--   Database           the tables of kryon-protocol/prisma/schema.prisma that the services write
--                      (`Db`), and in Database/Exec the code that awaits SQL statements: a `World` holds
--                      the tables, the time and a schedule of the statements that throw. A statement
--                      that throws writes nothing, and what came before it stays written, as the
--                      services open no transaction.
--   Signing            client/lib/market/signing-message.ts, the texts that traders sign.
--   Matcher            client/scripts/matcher-service.ts. `Matcher.Book.match_all` is `matchAll`, over
--                      `Matcher.Sort` (its comparators and `Array.prototype.sort`) and `Matcher.Pending`
--                      (its `Map` of pending fills); Matcher/Loading has the queries, Matcher/Fills has
--                      `persistFill` and `rollbackFill`, Matcher/Settlement has `executeSettlement` and
--                      `recordSettlementFailure`, Matcher/Tick has `tick`, Matcher/Hash `pseudoTxHash`.
--   Reconciler         client/scripts/settlement-reconciler.ts, from `tick` down to each statement.
--   Http               the requests and answers of the routes in client/app/api, and how they read texts.
--   Limiter            client/lib/rate-limit.ts: the counters in memory; Http/Limit has `rateLimit` with
--                      its choice between them and Redis, Http `requestKey` and `bodyTooLarge`.
--   Orders             order intake: client/lib/market/order-intent.ts (Orders/Nonce),
--                      client/lib/validation.ts (Orders/Validation), `withRetry` of client/lib/db.ts, and
--                      the routes of client/app/api/orders (Orders/Intake, Cancel, CancelAll). Orders/Submit
--                      is `submitOrder` of client/lib/market/matcher.ts, the client of the first.
--   Settling           client/app/api/settlements/[id]/sign/route.ts, which collects the signatures of
--                      the two parties of a queued job and submits the settlement.
--   Settling/Race      the same route as steps: any number of its requests, statement by statement, in any
--                      order.
--   Liquidation        client/lib/market/liquidation-sizing.ts, and in Liquidation/Keeper
--                      client/scripts/liquidation-keeper.ts: `liquidateAccount`, the scan of the accounts,
--                      a round of the loop.
--   Funding            client/scripts/funding-keeper.ts, `updateFunding` and `tick`.
--   Preflight          client/lib/deploy-preflight.ts.
--   Network            client/lib/network-resolve.ts and client/lib/network-server.ts.
--   Stream             client/scripts/ws-server.ts: its subscriptions, Stream/Book the public order book, which
--                      client/app/api/markets/[id]/orderbook/route.ts computes in the same way, and
--                      Stream/Trades the trades that it sends.
--   Refill             client/scripts/keeper-refill.ts: the XLM that the keepers get, the swap for it, in
--                      Refill/Main the run.
--   Monitor            client/scripts/monitor.ts: Monitor/Checks the check of the oracle and what services
--                      answer, Monitor/Lags and Monitor/Funds the other checks, Monitor/Round `runChecks`,
--                      Monitor the alerts.
--   Sql                client/lib/sql.ts: the queries of the tagged template, and the pools that clients share.
--   Collateral         client/lib/stellar/collateral.ts: what the vault lists, the trustline and the rounding.
--   Stats              client/lib/stats.ts: the realized profit of a fill and its events.
--   Oracle             client/scripts/oracle-keeper.ts: Oracle/Aggregate has the sources and `aggregatePrice`,
--                      Oracle/Reflector client/lib/stellar/reflector.ts and `reflectorAllowsPublish`,
--                      Oracle/Publish `shouldPublish` to `tickInner`, Oracle/Idle `isPublishingNeeded` and
--                      `tick`, Oracle/Activity client/lib/oracle-activity.ts, on whose tables the matcher
--                      and the reconciler write. A price in dollars is a double: its bit pattern, with the
--                      arithmetic of `Doubles` as a parameter.
--
-- They interact through the tables: intake inserts orders; the matcher reads them, inserts fills and
-- raises `filledSize`, and queues or confirms settlement jobs; the sign route collects signatures and
-- submits; the reconciler advances those jobs and gives the size of a fill back where its settlement
-- failed; the routes that cancel mark orders.
--
-- How code becomes definitions:
--
--   - a function of the source is a function of the same name in snake_case; an exported constant is an
--     `abbrev`; an interface is a record;
--   - a `bigint` that is never negative is a natural number of any size. Where the source tests a
--     difference for `<= 0n`, the truncated difference is 0 in the same cases. Signed quantities are
--     `Common.Int.ℤ`;
--   - the tables are lists of rows, and a statement is a function on them: `update_where` for
--     UPDATE ... WHERE, `keep` for SELECT and DELETE, `any` for whether RETURNING gave a row;
--   - a clock is read once for an action: the time of the `World` serves `NOW()` and `Date.now()`;
--   - log lines, and the cutting of error texts for the log or a column, are left out;
--   - code outside the repository (the Stellar SDK and node, ed25519, Redis) is a field of a `Config`
--     record or an argument, and so are the functions of client/lib that wrap the SDK. Such fields are
--     arbitrary functions, which may throw where the code may.
--
-- Loops are structural. Recursion on a counter occurs in `Common.Text.to_base`, where a number has at most
-- as many digits as its value, in the ten polls of the reconciler and the fifteen of the keepers, and in
-- the attempts of `withRetry`.
--
-- Not modelled: the React interface and the arithmetic of client/lib/math.ts that it shows, the
-- deployment and operation scripts but for the refill, client/scripts/state-indexer.ts,
-- client/scripts/stats-aggregator.ts, client/scripts/ttl-keeper.ts, client/lib/secrets-check.ts, the
-- API routes that only read, the SDK wrappers of client/lib/stellar but for the collateral and of
-- client/lib/market/signed-intent.ts, and the Rust contracts.
pub mod Collateral
pub mod Common
pub mod Database
pub mod Funding
pub mod Http
pub mod Limiter
pub mod Liquidation
pub mod Matcher
pub mod Monitor
pub mod Network
pub mod Oracle
pub mod Orders
pub mod Preflight
pub mod Reconciler
pub mod Refill
pub mod Settling
pub mod Signing
pub mod Sql
pub mod Stats
pub mod Stream
