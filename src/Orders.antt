-- ===== src/Orders.antt =====
-- The intake of orders: client/lib/market/order-intent.ts and client/lib/validation.ts, and the routes of
-- client/app/api/orders, whose environment and retries (client/lib/db.ts) are here.
pub mod Submit
pub mod Nonce
pub mod Validation
pub mod Intake
pub mod Cancel
pub mod CancelAll
pub mod Tests
use Prim.Native.Char.{code}
use kryon.Common.{
  ℕ, zero, suc, ◌+◌, String, Bool, true, false, not, ◌&&◌, ◌||◌, List, [], ◌∷◌, Option, none, some,
  ltb, leb, ◌==◌, if◌then◌else◌,
}
use kryon.Database.{Db}
use kryon.Database.Exec.{
  World, Outcome, ok, Exec, Keeps, pure, throw, call, try_catch, Keeps-pure, Keeps-throw, Keeps-if,
  Keeps-try_catch,
}
use kryon.Http.Limit.{LimiterConfig}
use kryon.Orders.Validation.{ValidationConfig}

-- What the routes read of their environment, and the passphrase of the network of the request.
pub record RouteConfig : Type 0 where
  pub limiter : LimiterConfig
  pub validation : ValidationConfig
  pub passphrase : String

-- `Math.floor(Date.now() / 1000)`
unfoldable pub read_clock : Exec ℕ
read_clock = call (λ w. ok w.now)

-- Letters without their case, for a regular expression with the flag `i`
lower : ℕ → ℕ
lower c = if leb 65 c && leb c 90 then c + 32 else c

starts_with : String → String → Bool
starts_with String.[] s = true
starts_with (String.◌∷◌ c p) String.[] = false
starts_with (String.◌∷◌ c p) (String.◌∷◌ d s) = lower (code c) == lower (code d) && starts_with p s

contains : String → String → Bool
contains p String.[] = starts_with p String.[]
contains p (String.◌∷◌ c s) = starts_with p (String.◌∷◌ c s) || contains p s

some_in : List String → String → Bool
some_in [] s = false
some_in (p ∷ ps) s = contains p s || some_in ps s

unfoldable pub is_transient : String → Bool
unfolding lower starts_with contains some_in
is_transient =
    some_in ("fetch failed" ∷ "ECONNRESET" ∷ "ETIMEDOUT" ∷ "connect" ∷ "terminat" ∷ "timeout" ∷ [])

-- `withRetry`, less the waiting between two attempts. `attempts` is positive in every call.
unfoldable pub with_retry : {A : Type 0} → Exec A → ℕ → Exec A
with_retry run zero = throw "undefined"
with_retry run (suc n) =
    let again = with_retry run n in
    try_catch run (λ e. if not (is_transient e) || n == 0 then throw e else again)

pub Keeps-with_retry :
    {A : Type 0} {P : Db → Type 0} (run : Exec A) (n : ℕ) → Keeps P run → Keeps P (with_retry run n)
unfolding with_retry
Keeps-with_retry run zero k = Keeps-throw "undefined"
Keeps-with_retry run (suc n) k =
    Keeps-try_catch run _ k
      λ e. Keeps-if (not (is_transient e) || n == 0) _ _ (Keeps-throw e) (Keeps-with_retry run n k)
