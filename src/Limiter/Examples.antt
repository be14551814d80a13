-- ===== src/Limiter/Examples.antt =====
-- The limiters of the server at concrete inputs.
use tarion.Base.{ℕ, ◌+◌, ◌-◌, ◌*◌, ◌≤◌, ◌≡◌, List, [], ◌∷◌, arith}
use tarion.Text.{text}
use tarion.Limiter.{Limiter, cap, sweep}
use tarion.Limiter.Level.{level, level-sweep}
use tarion.Limiter.Budget.{Event, call, swept, granted, granted-le-cap}

-- One token each second, with a burst of two; "a" asks three times at once and once more later.
abbrev two_per_second : Limiter
two_per_second = record { scale = 1_000_000_000; gain = 1; burst = 2; buckets = [] }

abbrev asks : List (ℕ × Event)
asks =
    (5, call (text "a") 1)
    ∷ (5, call (text "a") 1)
    ∷ (6, call (text "a") 1)
    ∷ (7, swept)
    ∷ (2_000_000_000, call (text "a") 1)
    ∷ []

granted-le-cap_example :
    granted two_per_second (text "a") asks * 1_000_000_000
    ≤ cap two_per_second + (2_000_000_000 - 5) * 1
granted-le-cap_example =
    granted-le-cap two_per_second (text "a") 5 2_000_000_000 asks tt (omega arith)

level-sweep_example :
    level (sweep two_per_second 3) (text "a") 9 ≡ level two_per_second (text "a") 9
level-sweep_example = level-sweep two_per_second (text "a") 3 9 tt (omega arith)
