-- ===== src/Database/Exec.antt =====
-- Asynchronous code that awaits SQL statements, each of which may throw. What was written before a
-- statement throws stays written: no service opens a transaction.
use kryon.Common.{
  ℕ, ◌≡◌, refl, ◌+◌, String, Option, none, some, List, [], ◌∷◌, Bool, true, false, if◌then◌else◌,
}
use kryon.Database.{Db}
use kryon.Limiter.{Buckets}

-- `faults` lists the errors that the statements to come throw, `none` for a statement that works.
-- Past the end of the list all work. `now` is the time of the database in seconds, `millis` what the
-- clock has beyond it, and `buckets` the memory of the request limiter.
pub record World : Type 0 where
  pub db : Db
  pub faults : List (Option String)
  pub now : ℕ
  pub millis : ℕ
  pub buckets : Buckets

pub data Outcome {ℓ} (A : Type ℓ) : Type ℓ where
  ok : A → Outcome A
  thrown : String → Outcome A

abbrev pub Exec : Type 0 → Type 0
Exec A = World → Outcome A × World

module _ {A : Type 0} where
  abbrev pub pure : A → Exec A
  pure a w = (ok a, w)

  abbrev pub throw : String → Exec A
  throw e w = (thrown e, w)

  abbrev attempt : Option String → (Db → A × Db) → Exec A
  attempt (some e) f w = (thrown e, w)
  attempt none f w = let (a, db) = f w.db in (ok a, record w { db = db })

  abbrev run_with : List (Option String) → (Db → A × Db) → Exec A
  run_with [] f w = attempt none f w
  run_with (fault ∷ rest) f w = attempt fault f (record w { faults = rest })

  -- One awaited statement.
  unfoldable pub sql : (Db → A × Db) → Exec A
  sql f w = run_with w.faults f w

  -- A statement that reads the time, by `NOW()` or a parameter computed from `Date.now()`.
  unfoldable pub sql_at : (ℕ → Db → A × Db) → Exec A
  unfolding sql
  sql_at f w = sql (f w.now) w

  -- A call of a service other than the database, which may throw.
  unfoldable pub call : (World → Outcome A) → Exec A
  call f w = (f w, w)

  abbrev recover : Outcome A → (String → Exec A) → Exec A
  recover (ok a) h w = (ok a, w)
  recover (thrown e) h w = h e w

  -- `try { m } catch (e) { h(e) }`
  unfoldable pub try_catch : Exec A → (String → Exec A) → Exec A
  try_catch m h w = let (r, w') = m w in recover r h w'

module _ {A B : Type 0} where
  abbrev and_then : Outcome A → (A → Exec B) → Exec B
  and_then (ok a) f w = f a w
  and_then (thrown e) f w = (thrown e, w)

  infixl 5 ◌>>=◌ ◌>>◌
  unfoldable pub ◌>>=◌ : Exec A → (A → Exec B) → Exec B
  ◌>>=◌ m f w = let (r, w') = m w in and_then r f w'

  abbrev pub ◌>>◌ : Exec A → Exec B → Exec B
  m >> k = m >>= λ _. k

-- `for (const x of xs) total += await body(x)`
unfoldable pub sum_await : {A : Type 0} → (A → Exec ℕ) → List A → Exec ℕ
unfolding ◌>>=◌
sum_await body [] = pure 0
sum_await body (x ∷ xs) = body x >>= λ n. sum_await body xs >>= λ m. pure (n + m)

-- `for (const x of xs) await body(x)`
unfoldable pub for_await : {A : Type 0} → (A → Exec (Unit {0})) → List A → Exec (Unit {0})
unfolding ◌>>=◌
for_await body [] = pure tt
for_await body (x ∷ xs) = body x >>= λ _. for_await body xs

-- A statement that only reads keeps the tables, and what it answers is what it read.
abbrev pub Reads : {A : Type 0} → (Db → A) → World → Outcome A × World → Type 0
Reads {A} read w (r, v) = (v.db ≡ w.db) × ((a : A) → r ≡ ok a → read w.db ≡ a)

run_with-Reads :
    {A : Type 0} (read : Db → A) (faults : List (Option String)) (w : World)
    → Reads read w (run_with faults (λ db. (read db, db)) w)
run_with-Reads read [] w = (refl, λ a h. cc)
run_with-Reads read (none ∷ rest) w = (refl, λ a h. cc)
run_with-Reads read (some e ∷ rest) w = (refl, λ a h. cc)

pub sql-Reads :
    {A : Type 0} (read : Db → A) (w : World) → Reads read w (sql (λ db. (read db, db)) w)
unfolding sql
sql-Reads read w = run_with-Reads read w.faults w

-- The statements keep `P` on the tables, whichever of them throw.
pub record Keeps {A : Type 0} (P : Db → Type 0) (m : Exec A) : Type 0 where
  pub at : (w : World) → P w.db → P (m w).1.db

module _ {A : Type 0} {P : Db → Type 0} where
  pub Keeps-pure : (a : A) → Keeps P (pure a)
  Keeps-pure a = record { at = λ w h. h }

  pub Keeps-throw : (e : String) → Keeps P (throw {A = A} e)
  Keeps-throw e = record { at = λ w h. h }

  run_with-Keeps :
      (f : Db → A × Db)
      → ((db : Db) → P db → P (f db).1)
      → (faults : List (Option String)) (w : World) → P w.db
      → P (run_with faults f w).1.db
  run_with-Keeps f k [] w h = k w.db h
  run_with-Keeps f k (none ∷ rest) w h = k w.db h
  run_with-Keeps f k (some e ∷ rest) w h = h

  pub Keeps-sql : (f : Db → A × Db) → ((db : Db) → P db → P (f db).1) → Keeps P (sql f)
  unfolding sql
  Keeps-sql f k = record { at = λ w h. run_with-Keeps f k w.faults w h }

  pub Keeps-sql_at :
      (f : ℕ → Db → A × Db) → ((now : ℕ) (db : Db) → P db → P (f now db).1) → Keeps P (sql_at f)
  unfolding sql_at
  Keeps-sql_at f k = record { at = λ w h. run_with-Keeps (f w.now) (k w.now) w.faults w h }

  pub Keeps-call : (f : World → Outcome A) → Keeps P (call f)
  unfolding call
  Keeps-call f = record { at = λ w h. h }

  pub Keeps-if : (b : Bool) (m n : Exec A) → Keeps P m → Keeps P n → Keeps P (if b then m else n)
  Keeps-if true m n km kn = km
  Keeps-if false m n km kn = kn

  -- The same where the branches may use what the test says.
  pub Keeps-if_eq :
      (b : Bool) (m n : Exec A)
      → (b ≡ true → Keeps P m)
      → (b ≡ false → Keeps P n)
      → Keeps P (if b then m else n)
  Keeps-if_eq true m n km kn = km refl
  Keeps-if_eq false m n km kn = kn refl

  recover-Keeps :
      (h : String → Exec A)
      → ((e : String) → Keeps P (h e))
      → (r : Outcome A) (w : World) → P w.db
      → P (recover r h w).1.db
  recover-Keeps h k (ok a) w p = p
  recover-Keeps h k (thrown e) w p = (k e).at w p

  pub Keeps-try_catch :
      (m : Exec A) (h : String → Exec A)
      → Keeps P m
      → ((e : String) → Keeps P (h e))
      → Keeps P (try_catch m h)
  unfolding try_catch
  Keeps-try_catch m h km kh = record { at = λ w p. recover-Keeps h kh (m w).0 (m w).1 (km.at w p) }

module _ {A B : Type 0} {P : Db → Type 0} where
  and_then-Keeps :
      (f : A → Exec B)
      → ((a : A) → Keeps P (f a))
      → (r : Outcome A) (w : World) → P w.db
      → P (and_then r f w).1.db
  and_then-Keeps f k (ok a) w p = (k a).at w p
  and_then-Keeps f k (thrown e) w p = p

  pub Keeps-bind :
      (m : Exec A) (f : A → Exec B) → Keeps P m → ((a : A) → Keeps P (f a)) → Keeps P (m >>= f)
  unfolding ◌>>=◌
  Keeps-bind m f km kf = record { at = λ w p. and_then-Keeps f kf (m w).0 (m w).1 (km.at w p) }

pub Keeps-for_await :
    {A : Type 0} {P : Db → Type 0} (body : A → Exec (Unit {0})) (xs : List A)
    → ((x : A) → Keeps P (body x))
    → Keeps P (for_await body xs)
unfolding for_await
Keeps-for_await body [] k = Keeps-pure tt
Keeps-for_await body (x ∷ xs) k =
    Keeps-bind (body x) (λ _. for_await body xs) (k x) (λ _. Keeps-for_await body xs k)

pub Keeps-sum_await :
    {A : Type 0} {P : Db → Type 0} (body : A → Exec ℕ) (xs : List A)
    → ((x : A) → Keeps P (body x))
    → Keeps P (sum_await body xs)
unfolding sum_await
Keeps-sum_await body [] k = Keeps-pure 0
Keeps-sum_await body (x ∷ xs) k =
    Keeps-bind (body x) _ (k x)
      λ n. Keeps-bind (sum_await body xs) _ (Keeps-sum_await body xs k) (λ m. Keeps-pure (n + m))

pub ruleset keeps_rules =
    (Keeps-call, Keeps-pure, Keeps-throw, Keeps-if, Keeps-try_catch, Keeps-bind)
