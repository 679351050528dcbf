-- ===== src/Http/Limit.antt =====
-- `rateLimit` and `distributedRateLimit` of client/lib/rate-limit.ts.
use kryon.Common.{
  ℕ, ◌+◌, ◌*◌, ◌/◌, String, ◌<>◌, Bool, false, Option, none, some, leb, if◌then◌else◌, to_decimal,
}
use kryon.Limiter.{local_rate_limit, window_ms}
use kryon.Database.{Db}
use kryon.Database.Exec.{World, Outcome, ok, Exec, Keeps, pure, call, try_catch, ◌>>=◌, keeps_rules}

-- `redis`, where it is configured, answers the count of a key after the increment, `none` where that is
-- no finite number, and may throw.
pub record LimiterConfig : Type 0 where
  pub redis : Option (String → World → Outcome (Option ℕ))
  pub production : Bool

-- `Date.now()`
abbrev pub now_ms : World → ℕ
now_ms w = w.now * 1000 + w.millis

abbrev bucket_key : String → ℕ → String
bucket_key key now = "rl:" <> key <> ":" <> to_decimal (now / window_ms)

unfoldable pub distributed_rate_limit :
    (String → World → Outcome (Option ℕ)) → String → ℕ → Exec Bool
distributed_rate_limit redis key limit =
    call (λ w. redis (bucket_key key (now_ms w)) w) >>= λ count.
    pure (elim count [ none ↦ false | some n ↦ leb n limit ])

-- The turn in the memory of this instance
unfoldable pub take_local_turn : String → ℕ → Exec Bool
take_local_turn key limit w =
    let (free, later) = local_rate_limit key limit (now_ms w) w.buckets in
    (ok free, record w { buckets = later })

abbrev decide : Option (String → World → Outcome (Option ℕ)) → Bool → String → ℕ → Exec Bool
decide (some redis) production key limit =
    try_catch (distributed_rate_limit redis key limit) (λ e. pure false)
decide none production key limit = if production then pure false else take_local_turn key limit

unfoldable pub rate_limit : LimiterConfig → String → ℕ → Exec Bool
rate_limit c = decide c.redis c.production

module _ {P : Db → Type 0} (key : String) (limit : ℕ) where
  Keeps-take_local_turn : Keeps P (take_local_turn key limit)
  unfolding take_local_turn
  Keeps-take_local_turn = record { at = λ w h. h }

  Keeps-decide :
      (redis : Option (String → World → Outcome (Option ℕ))) (production : Bool)
      → Keeps P (decide redis production key limit)
  unfolding distributed_rate_limit
  Keeps-decide (some redis) production = search keeps_rules depth 6
  Keeps-decide none production = search (Keeps-take_local_turn, keeps_rules)

  -- The limiter writes no table.
  pub Keeps-rate_limit : (c : LimiterConfig) → Keeps P (rate_limit c key limit)
  unfolding rate_limit
  Keeps-rate_limit c = Keeps-decide c.redis c.production
