-- ===== src/Limiter.antt =====
-- client/lib/rate-limit.ts: the counters of requests that one instance of the server keeps in memory.
pub mod Window
pub mod Tests
use kryon.Common.{
  ℕ, suc, ◌+◌, ◌-◌, ◌≤◌, ◌<◌, ◌≡◌, refl, ◌∙◌, inl, inr, String, Bool, true, false, not, ◌&&◌,
  Option, none, some, List, [], ◌∷◌, length, ltb, leb, str_eq, eq_iff, if◌then◌else◌, keep, arith,
  Bool-cases, All,
}

abbrev pub window_ms : ℕ
window_ms = 60000

abbrev pub max_keys : ℕ
max_keys = 10000

pub record Bucket : Type 0 where
  pub count : ℕ
  pub reset_at : ℕ

-- A `Map`: its entries in the order in which they were set first.
abbrev pub Buckets : Type 0
Buckets = List (String × Bucket)

unfoldable pub get : String → Buckets → Option Bucket
get key [] = none
get key ((k, b) ∷ rest) = if str_eq k key then some b else get key rest

unfoldable pub set : String → Bucket → Buckets → Buckets
set key b [] = (key, b) ∷ []
set key b ((k, c) ∷ rest) = if str_eq k key then (k, b) ∷ rest else (k, c) ∷ set key b rest

-- The expired buckets go when there are too many.
unfoldable pub purge : ℕ → Buckets → Buckets
purge now buckets =
    if ltb max_keys (length buckets)
    then keep (λ e. not (leb e.1.reset_at now)) buckets
    else buckets

abbrev pub start : String → ℕ → Buckets → Bool × Buckets
start key now buckets = (true, set key (record { count = 1; reset_at = now + window_ms }) buckets)

abbrev pub take_turn : String → ℕ → ℕ → Buckets → Option Bucket → Bool × Buckets
take_turn key limit now buckets none = start key now buckets
take_turn key limit now buckets (some b) =
    if leb b.reset_at now
    then start key now buckets
    else (leb (b.count + 1) limit, set key (record b { count = b.count + 1 }) buckets)

unfoldable pub local_rate_limit : String → ℕ → ℕ → Buckets → Bool × Buckets
local_rate_limit key limit now buckets =
    let swept = purge now buckets in take_turn key limit now swept (get key swept)
