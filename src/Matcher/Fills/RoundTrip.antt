-- ===== src/Matcher/Fills/RoundTrip.antt =====
-- `rollbackFill` undoes `persistFill`.
use text.Mathlib.TextPositions.{eq_refl}
use kryon.Common.{
  ℕ, ◌+◌, ◌-◌, ◌≤◌, ◌≡◌, ◌≢◌, refl, String, true, false, not, List, [], ◌∷◌, ◌++◌, map, arith, ◌==◌,
  str_eq, eq_iff, if◌then◌else◌, any, keep, update_where, All,
}
use kryon.Matcher.Order.{MatchResult}
use kryon.Matcher.Hash.{pseudo_tx_hash}
use kryon.Matcher.Fills.{
  persist_fill, rollback_fill, insert_fill, delete_fill, set_market, add_volume, take_volume,
  same_fill, has_hash, fill_row, fill_value,
}
use kryon.Database.{Db, FillRow, MarketRow, OrderRow}
use kryon.Database.Orders.{with_filled, has_room, raise_filled, lower_filled}
use kryon.Database.Exec.{World, ok, sql, try_catch}

-- Every row of the order has room for the fill.
abbrev pub RowsHaveRoom : MatchResult → List OrderRow → Type 0
RowsHaveRoom m = All λ r.
    (str_eq r.id m.maker.id ≡ true → r.filled_size + m.fill_size ≤ r.size)
    × (str_eq r.id m.taker.id ≡ true → r.filled_size + m.fill_size ≤ r.size)

raised : String → ℕ → OrderRow → OrderRow
raised id n r = if has_room id n r then with_filled (r.filled_size + n) r else r

lowered : String → ℕ → OrderRow → OrderRow
lowered id n r = if str_eq r.id id then with_filled (r.filled_size - n) r else r

row_restored :
    (a b : String) (n : ℕ) (r : OrderRow)
    → a ≢ b
    → (str_eq r.id a ≡ true → r.filled_size + n ≤ r.size)
    → (str_eq r.id b ≡ true → r.filled_size + n ≤ r.size)
    → lowered b n (lowered a n (raised b n (raised a n r))) ≡ r
unfolding raised lowered has_room with_filled
row_restored a b n r ne ha hb = ground (arith, eq_iff r.id a, eq_iff r.id b)

-- The orders after the two raises, and after the two lowerings.
abbrev raise_both : MatchResult → List OrderRow → List OrderRow
raise_both m rows =
    update_where (has_room m.taker.id m.fill_size)
      (λ r. with_filled (r.filled_size + m.fill_size) r)
      (update_where (has_room m.maker.id m.fill_size)
        (λ r. with_filled (r.filled_size + m.fill_size) r) rows)

abbrev lower_both : MatchResult → List OrderRow → List OrderRow
lower_both m rows =
    update_where (λ r. str_eq r.id m.taker.id) (λ r. with_filled (r.filled_size - m.fill_size) r)
      (update_where (λ r. str_eq r.id m.maker.id) (λ r. with_filled (r.filled_size - m.fill_size) r)
        rows)

orders_restored :
    (m : MatchResult) (rows : List OrderRow)
    → m.maker.id ≢ m.taker.id
    → RowsHaveRoom m rows
    → lower_both m (raise_both m rows) ≡ rows
unfolding update_where raised lowered
orders_restored m [] ne h = refl
orders_restored m (r ∷ rs) ne h =
    cc
      (row_restored m.maker.id m.taker.id m.fill_size r ne h.0.0 h.0.1, orders_restored m rs ne h.1)

volume_restored :
    (id price value : ℕ) (ms : List MarketRow)
    → map
        (λ x. x.volume)
        (update_where
          (λ x. x.id == id)
          (take_volume value)
          (update_where (λ x. x.id == id) (add_volume price value) ms))
      ≡ map (λ x. x.volume) ms
unfolding update_where take_volume add_volume
volume_restored id price value [] = refl
volume_restored id price value (x ∷ xs) = ground (arith, volume_restored id price value xs)

fill_row-has_hash :
    (network : String) (m : MatchResult)
    → has_hash network (pseudo_tx_hash m.maker m.taker m.fill_size) (fill_row network m) ≡ true
unfolding has_hash fill_row
fill_row-has_hash network m = simp eq_refl

-- No row of the network has the hash.
abbrev pub IsFresh : String → MatchResult → List FillRow → Type 0
IsFresh network m = All λ f. has_hash network (pseudo_tx_hash m.maker m.taker m.fill_size) f ≡ false

pub fresh-same_fill :
    (network : String) (m : MatchResult) (fs : List FillRow)
    → IsFresh network m fs
    → any (same_fill (fill_row network m)) fs ≡ false
unfolding any same_fill has_hash fill_row
fresh-same_fill network m [] h = refl
fresh-same_fill network m (f ∷ fs) h = ground (
  arith,
  h.0,
  fresh-same_fill network m fs h.1,
  eq_iff f.network network,
  eq_iff network f.network,
  eq_iff f.tx_hash (pseudo_tx_hash m.maker m.taker m.fill_size),
  eq_iff (pseudo_tx_hash m.maker m.taker m.fill_size) f.tx_hash,
)

fills_restored :
    (network : String) (m : MatchResult) (fs : List FillRow)
    → IsFresh network m fs
    → keep
        (λ f. not (has_hash network (pseudo_tx_hash m.maker m.taker m.fill_size) f))
        (fs ++ fill_row network m ∷ [])
      ≡ fs
unfolding keep
fills_restored network m [] h = rw fill_row-has_hash
fills_restored network m (f ∷ fs) h = rw (h.0, fills_restored network m fs h.1)

-- Each of the two orders is in the table.
abbrev pub HasRow : String → List OrderRow → Type 0
HasRow id rows = any (λ r. str_eq r.id id) rows ≡ true

maker_has_room :
    (m : MatchResult) (rows : List OrderRow)
    → RowsHaveRoom m rows
    → any (has_room m.maker.id m.fill_size) rows ≡ any (λ r. str_eq r.id m.maker.id) rows
unfolding any has_room
maker_has_room m [] h = refl
maker_has_room m (r ∷ rs) h = ground (arith, h.0.0, maker_has_room m rs h.1)

taker_has_room :
    (m : MatchResult) (rows : List OrderRow)
    → m.maker.id ≢ m.taker.id
    → RowsHaveRoom m rows
    → any (has_room m.taker.id m.fill_size) (
        update_where
          (has_room m.maker.id m.fill_size)
          (λ r. with_filled (r.filled_size + m.fill_size) r)
          rows)
      ≡ any (λ r. str_eq r.id m.taker.id) rows
unfolding any has_room update_where with_filled
taker_has_room m [] ne h = refl
taker_has_room m (r ∷ rs) ne h =
    ground
      (arith, h.0.1, taker_has_room m rs ne h.1, eq_iff r.id m.maker.id, eq_iff r.id m.taker.id)

-- The tables when no statement fails.
abbrev pub calm : Db → ℕ → World
calm db now = record { db = db; faults = []; now = now; millis = 0; buckets = [] }

abbrev persisted : String → MatchResult → Db → Db
persisted network m db = record {
  orders = raise_both m db.orders;
  fills = db.fills ++ fill_row network m ∷ [];
  markets =
      update_where (λ x. x.id == m.maker.market_id) (add_volume m.fill_price (fill_value m))
        db.markets;
  jobs = db.jobs;
  accounts = db.accounts;
}

module _ (network : String) (m : MatchResult) (db : Db) (now : ℕ)
    (fresh : IsFresh network m db.fills) (parties : m.maker.id ≢ m.taker.id)
    (room : RowsHaveRoom m db.orders) (maker_row : HasRow m.maker.id db.orders)
    (taker_row : HasRow m.taker.id db.orders) where
  persist_fill-eq :
      persist_fill network m (calm db now) ≡ (ok true, calm (persisted network m db) now)
  unfolding persist_fill sql try_catch insert_fill raise_filled set_market
  persist_fill-eq =
      rw
        (
          fresh-same_fill network m db.fills fresh,
          maker_has_room m db.orders room,
          maker_row,
          taker_has_room m db.orders parties room,
          taker_row,
        )
        refl

  rollback_fill-eq :
      let q = (rollback_fill network m (calm (persisted network m db) now)).1.db in
      (q.orders ≡ db.orders)
      × (q.fills ≡ db.fills)
      × (q.jobs ≡ db.jobs)
      × (map (λ x. x.volume) q.markets ≡ map (λ x. x.volume) db.markets)
  unfolding rollback_fill sql try_catch delete_fill set_market lower_filled
  rollback_fill-eq = (
    orders_restored m db.orders parties room,
    fills_restored network m db.fills fresh,
    refl,
    volume_restored m.maker.market_id m.fill_price (fill_value m) db.markets,
  )

  -- Without faults, for a match between two stored orders with room for it and with a hash that no
  -- fill of the network has, `persistFill` succeeds, and `rollbackFill` then restores the orders, the
  -- fills, the jobs and the volume of each market.
  pub rollback_fill-persist_fill :
      let p = persist_fill network m (calm db now) in
      let q = (rollback_fill network m p.1).1.db in
      (p.0 ≡ ok true)
      × (q.orders ≡ db.orders)
      × (q.fills ≡ db.fills)
      × (q.jobs ≡ db.jobs)
      × (map (λ x. x.volume) q.markets ≡ map (λ x. x.volume) db.markets)
  rollback_fill-persist_fill =
      rw persist_fill-eq
        (refl, rollback_fill-eq.0, rollback_fill-eq.1, rollback_fill-eq.2, rollback_fill-eq.3)
