-- ===== src/Matcher/Pending.antt =====
-- The map `pendingFills` of `matchAll`: `get(id) ?? 0n`, and `add`.
use kryon.Common.{ℕ, ◌+◌, String, ◌≡◌, List, [], ◌∷◌, arith, str_eq, eq_iff, if◌then◌else◌}

abbrev pub PendingFills : Type 0
PendingFills = List (String × ℕ)

unfoldable pub pending : String → PendingFills → ℕ
pending k [] = 0
pending k ((j, n) ∷ m) = if str_eq j k then n else pending k m

-- `pendingFills.set(a, (pendingFills.get(a) ?? 0n) + delta)`
unfoldable pub add : String → ℕ → PendingFills → PendingFills
add k d [] = (k, d) ∷ []
add k d ((j, n) ∷ m) = if str_eq j k then (j, n + d) ∷ m else (j, n) ∷ add k d m

pub pending-add :
    (k j : String) (d : ℕ) (m : PendingFills)
    → pending j (add k d m) ≡ pending j m + (if str_eq k j then d else 0)
unfolding pending add
pending-add k j d [] = ground arith
pending-add k j d ((i, n) ∷ m) =
    ground (arith, pending-add k j d m, eq_iff i k, eq_iff i j, eq_iff k j)
