-- ===== src/Stats/Tests.antt =====
-- The theorem on src/stats.c at a concrete input.
use pktsnare.Common.{refl, List, [], ◌∷◌}
use pktsnare.Stats.{Event, arrives, drops, init, run, IsBalanced, run-IsBalanced}

abbrev events : List Event
events = arrives 6 60 ∷ arrives 17 80 ∷ drops ∷ arrives 2054 42 ∷ []

run-IsBalanced_example : IsBalanced (run (init 1000) events)
run-IsBalanced_example = run-IsBalanced (init 1000) events (record { balance = refl })
