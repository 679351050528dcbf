-- ===== src/Matcher/Tests.antt =====
-- A small book, and the theorems on the matcher at it.
use text.Mathlib.TextPositions.{eq_refl}
use kryon.Common.{
  ℕ, ◌+◌, ◌≤◌, ◌≡◌, ◌≢◌, refl, sym, ap, ◌∙◌, ◌⊎◌, inl, inr, String, Bool, true, false, not, ◌&&◌,
  none, some, List, [], ◌∷◌, ◌++◌, map, arith, In, All, All-at, keep, for_each, any, str_eq, eq_iff,
}
use kryon.Matcher.Order.{RestingOrder, MatchResult}
use kryon.Matcher.Hash.{pseudo_tx_hash}
use kryon.Matcher.Pending.{pending, add}
use kryon.Matcher.Sort.{sort, best_bid_first, best_ask_first}
use kryon.Matcher.Book.{
  match_all, final_state, remaining, book_fill, hit_resting, cross, hit_book, cross_book,
  limit_bids, limit_asks,
}
use kryon.Matcher.Book.Volume.{traded, IsKeyed, IsFillable, match_all-fits}
use kryon.Matcher.Book.Fairness.{IsFair, match_all-IsFair}
use kryon.Matcher.Book.Uncrossed.{IsUsedUp, match_all-uncrossed}
use kryon.Matcher.Config.{Config, reason}
use kryon.Matcher.Fills.{persist_fill, rollback_fill, fill_row}
use kryon.Matcher.Fills.RoundTrip.{calm, rollback_fill-persist_fill}
use kryon.Matcher.Fills.Stranded.{persist_fill-strands}
use kryon.Matcher.Fills.Sizes.{tick-IsWithin}
use kryon.Matcher.Settlement.{execute_settlement, has_signature, settle_fill, has_key}
use kryon.Matcher.Settlement.Requeue.{HasFailed, execute_settlement-stays_failed}
use kryon.Matcher.Tick.{tick}
use kryon.Database.{Db, OrderRow, TxJob, JobPayload, failed}
use kryon.Database.Orders.{IsWithin, raise_filled, has_room}
use kryon.Database.Exec.{ok}

abbrev pub order : String → String → Bool → ℕ → ℕ → ℕ → RestingOrder
order id owner is_long size price at = record {
  id = id;
  owner = owner;
  market_id = 1;
  is_long = is_long;
  size = size;
  limit_price = price;
  reduce_only = false;
  nonce = at;
  expiry_ts = 0;
  filled_size = 0;
  created_at = at;
  signature = none;
}

abbrev pub bid : RestingOrder
bid = order "a:1" "a" true 10 100 1

abbrev pub ask : RestingOrder
ask = order "b:2" "b" false 6 90 2

abbrev pub sell : RestingOrder
sell = order "c:3" "c" false 3 0 3

abbrev pub limits : List RestingOrder
limits = bid ∷ ask ∷ []

abbrev pub markets : List RestingOrder
markets = sell ∷ []

ids_differ : List RestingOrder → Bool
ids_differ [] = true
ids_differ (o ∷ os) = not (any (λ p. str_eq o.id p.id) os) && ids_differ os

not_elsewhere :
    (a b : RestingOrder) (os : List RestingOrder)
    → any (λ p. str_eq a.id p.id) os ≡ false
    → In b os
    → a.id ≢ b.id
unfolding any
not_elsewhere a b [] h i e = absurd i
not_elsewhere a b (o ∷ os) h (inl same) e =
    ground (arith, eq_iff a.id o.id, ap (λ (p : RestingOrder). p.id) same)
not_elsewhere a b (o ∷ os) h (inr i) e = not_elsewhere a b os (ground arith) i e

ids_differ-IsKeyed : (os : List RestingOrder) → ids_differ os ≡ true → IsKeyed os
unfolding ids_differ
ids_differ-IsKeyed [] h a b i j e = absurd i
ids_differ-IsKeyed (o ∷ os) h a b (inl p) (inl q) e = p ∙ sym q
ids_differ-IsKeyed (o ∷ os) h a b (inl p) (inr j) e =
    absurd (not_elsewhere o b os (ground arith) j (ap (λ (x : RestingOrder). x.id) (sym p) ∙ e))
ids_differ-IsKeyed (o ∷ os) h a b (inr i) (inl q) e =
    absurd (not_elsewhere o a os (ground arith) i (ap (λ (x : RestingOrder). x.id) (sym q) ∙ sym e))
ids_differ-IsKeyed (o ∷ os) h a b (inr i) (inr j) e = ids_differ-IsKeyed os (ground arith) a b i j e

keyed : IsKeyed (limits ++ markets)
unfolding ids_differ any
keyed = ids_differ-IsKeyed (limits ++ markets) refl

fillable : IsFillable (limits ++ markets)
fillable o i = All-at (λ x. x.filled_size ≤ x.size) o (limits ++ markets) (omega arith) i

other_owner : (s t : String) → str_eq s t ≡ false → s ≢ t
other_owner s t h e = ground (arith, eq_iff s t)

-- The market sell takes 3 of the bid at 100, then the ask takes 6, again at the bid's price.
match_sizes : map (λ m. m.fill_size) (match_all limits markets) ≡ 3 ∷ 6 ∷ []
unfolding match_all keep sort best_bid_first best_ask_first for_each hit_book hit_resting cross_book
    cross limit_bids limit_asks final_state remaining book_fill pending add
match_sizes = refl

match_all-fits_example : 0 + traded "a:1" (match_all limits markets) ≤ 10
match_all-fits_example = match_all-fits limits markets keyed fillable bid (inl refl)

match_all-IsFair_example : All (IsFair limits markets) (match_all limits markets)
match_all-IsFair_example = match_all-IsFair limits markets

match_all-uncrossed_example :
    IsUsedUp bid (match_all limits markets) ⊎ IsUsedUp ask (match_all limits markets)
match_all-uncrossed_example =
    match_all-uncrossed limits markets bid ask (inl refl) (inr (inl refl)) refl refl
      (other_owner "a" "b" refl) (omega arith)

abbrev crossing : MatchResult
crossing = record { maker = bid; taker = ask; fill_size = 6; fill_price = 100 }

abbrev pub row : RestingOrder → OrderRow
row o = record { order = o; cancelled = false }

abbrev pub tables : List RestingOrder → List TxJob → Db
tables os jobs = record {
  orders = map row os;
  fills = [];
  markets = record { id = 1; last_price = 0; last_oracle_price = some 100; volume = 0 } ∷ [];
  jobs = jobs;
  accounts = "a" ∷ "b" ∷ [];
}

rollback_fill-persist_fill_example :
    let p = persist_fill "testnet" crossing (calm (tables limits []) 0) in
    let q = (rollback_fill "testnet" crossing p.1).1.db in
    (p.0 ≡ ok true)
    × (q.orders ≡ map row limits)
    × (q.fills ≡ [])
    × (q.jobs ≡ [])
    × (map (λ x. x.volume) q.markets ≡ 0 ∷ [])
unfolding any
rollback_fill-persist_fill_example =
    rollback_fill-persist_fill "testnet" crossing (tables limits []) 0 tt
      (other_owner "a:1" "b:2" refl) (omega arith) refl refl

abbrev oversized : MatchResult
oversized = record { maker = bid; taker = ask; fill_size = 8; fill_price = 100 }

persist_fill-strands_example :
    let p = persist_fill "testnet" oversized (calm (tables limits []) 0) in
    (p.0 ≡ ok false)
    × (p.1.db.fills ≡ fill_row "testnet" oversized ∷ [])
    × (p.1.db.orders ≡ (raise_filled "a:1" 8 (tables limits [])).1.orders)
unfolding any has_room
persist_fill-strands_example =
    persist_fill-strands "testnet" oversized (tables limits []) 0 tt (other_owner "a:1" "b:2" refl)
      refl refl

abbrev pub payload : JobPayload
payload = record {
  maker_address = some "a";
  taker_address = some "b";
  assembled_tx_xdr = some "tx";
  maker_signed_entry = none;
  taker_signed_entry = none;
  fill_size = some 6;
  pending_tx_hash = none;
  maker_nonce = none;
  taker_nonce = none;
}

abbrev config : Config
config = record {
  network = "testnet";
  passphrase = "Test";
  markets = 1 ∷ [];
  max_deviation_bps = 1000;
  submit_settle_fill_signed = λ m h w. ok (reason "no signatures");
  simulate_settle_fill = λ m h w. ok (some payload);
  verify_signed_message = λ owner message signature. true;
  pubkey_hex_from_address = λ address. address;
}

tick-IsWithin_example : IsWithin (tick config (calm (tables limits []) 5)).1.db
tick-IsWithin_example = tick-IsWithin config (calm (tables limits []) 5) (omega arith)

abbrev failed_once : TxJob
failed_once = record {
  id = 1;
  network = "testnet";
  kind = settle_fill;
  payload_hash = pseudo_tx_hash bid ask 6;
  unsigned_xdr = none;
  status = failed;
  last_error = some "simulateSettleFill returned null (auth-entry path)";
  submitted_hash = none;
  attempts = 1;
  created_at = 0;
  updated_at = 0;
}

has_failed : HasFailed "testnet" (pseudo_tx_hash bid ask 6) (failed_once ∷ [])
unfolding any has_key
has_failed = (simp eq_refl, (λ _. refl, tt))

execute_settlement-stays_failed_example :
    let r = execute_settlement config crossing (calm (tables limits (failed_once ∷ [])) 0) in
    (r.0 ≡ ok true) × HasFailed "testnet" (pseudo_tx_hash bid ask 6) r.1.db.jobs
unfolding has_signature
execute_settlement-stays_failed_example =
    execute_settlement-stays_failed config crossing payload (tables limits (failed_once ∷ [])) 0
      refl refl has_failed
