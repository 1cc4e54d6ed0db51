-- ===== src/Throttle/Tests.antt =====
-- Runs of the model of src/throttle.c, and its theorem at a concrete input.
use pktsnare.Common.{◌≡◌, refl, true, false, List, [], ◌∷◌, arith}
use pktsnare.Throttle.{Time, init, limit, slide, admit, check, elapsed_ms}
use pktsnare.Throttle.Clock.{IsTime}
use pktsnare.Throttle.Windows.{Arrival, AreLimited, AreOrdered, run, run-init}

abbrev start : Time
start = record { sec = 5; nsec = 0 }

abbrev later : Time
later = record { sec = 5; nsec = 200000000 }

abbrev arrivals : List Arrival
arrivals = (start, 60) ∷ (start, 60) ∷ (start, 40) ∷ (start, 0) ∷ (later, 60) ∷ []

-- Too many bytes, then too many packets, then a new window
flags_run : (run (init start 20 1000) arrivals).0 ≡ true ∷ false ∷ true ∷ false ∷ true ∷ []
unfolding run check slide admit limit elapsed_ms
flags_run = refl

start-IsTime : IsTime start
start-IsTime = ground arith

arrivals-AreOrdered : AreOrdered start arrivals
arrivals-AreOrdered = ground arith

run-init_example :
    AreLimited 20 1000
      (record { start = start; packets = 0; bytes = 0 })
      arrivals
      (run (init start 20 1000) arrivals).0
run-init_example =
    (run-init start 20 1000 arrivals (omega arith) (omega arith) start-IsTime arrivals-AreOrdered).0
