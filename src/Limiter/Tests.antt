-- ===== src/Limiter/Tests.antt =====
-- Three requests in a window with a limit of two.
use kryon.Common.{ℕ, String, List, [], ◌∷◌, ◌≡◌, ◌≤◌, refl, arith}
use kryon.Limiter.{get, set, purge, local_rate_limit}
use kryon.Limiter.Window.{Turn, admitted, admitted-window}

abbrev turn : String → ℕ → Turn
turn key at = record { key = key; limit = 2; at = at }

abbrev turns : List Turn
turns = turn "b" 2000 ∷ turn "a" 3000 ∷ turn "a" 4000 ∷ []

admitted-run : admitted "a" (turn "a" 1000 ∷ turns) [] ≡ 2
unfolding admitted local_rate_limit get set purge
admitted-run = refl

admitted-window_example : admitted "a" (turn "a" 1000 ∷ turns) [] ≤ 2
admitted-window_example = admitted-window 2 (turn "a" 1000) turns [] (omega arith) tt (omega arith)
