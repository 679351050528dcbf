-- ===== src/Matcher/Fills/Stranded.antt =====
-- What `persistFill` leaves behind when the order of the taker has no room.
use kryon.Common.{
  ℕ, ◌+◌, ◌≡◌, ◌≢◌, refl, String, true, false, List, [], ◌∷◌, ◌++◌, arith, eq_iff, any,
  update_where, update_where-no_rows,
}
use kryon.Matcher.Order.{MatchResult}
use kryon.Matcher.Fills.{persist_fill, insert_fill, fill_row}
use kryon.Matcher.Fills.RoundTrip.{IsFresh, fresh-same_fill, calm}
use kryon.Database.{Db, OrderRow}
use kryon.Database.Orders.{with_filled, has_room, raise_filled}
use kryon.Database.Exec.{ok, sql, try_catch}

no_room_kept :
    (a b : String) (n : ℕ) (rows : List OrderRow)
    → a ≢ b
    → any (has_room b n) rows ≡ false
    → any (has_room b n) (update_where (has_room a n) (λ r. with_filled (r.filled_size + n) r) rows)
      ≡ false
unfolding any has_room update_where with_filled
no_room_kept a b n [] ne h = refl
no_room_kept a b n (r ∷ rs) ne h =
    ground (arith, no_room_kept a b n rs ne, eq_iff r.id a, eq_iff r.id b)

-- When no statement fails, the hash is fresh, the maker's order has room and the taker's has none,
-- `persistFill` answers false and leaves the new fill in the table and the maker's order raised.
pub persist_fill-strands :
    (network : String) (m : MatchResult) (db : Db) (now : ℕ)
    → IsFresh network m db.fills
    → m.maker.id ≢ m.taker.id
    → any (has_room m.maker.id m.fill_size) db.orders ≡ true
    → any (has_room m.taker.id m.fill_size) db.orders ≡ false
    → let p = persist_fill network m (calm db now) in
      (p.0 ≡ ok false)
      × (p.1.db.fills ≡ db.fills ++ fill_row network m ∷ [])
      × (p.1.db.orders ≡ (raise_filled m.maker.id m.fill_size db).1.orders)
unfolding persist_fill sql try_catch insert_fill raise_filled
persist_fill-strands network m db now fresh parties room none_left =
    let left = no_room_kept m.maker.id m.taker.id m.fill_size db.orders parties none_left in
    rw (fresh-same_fill network m db.fills fresh, room, left)
      (refl, refl, update_where-no_rows _ _ _ left)
