-- ===== src/Promisc/Tests.antt =====
-- Runs of the model of src/promisc.c, and its theorems at concrete inputs.
use pktsnare.Common.{◌≡◌, refl, ◌≢◌, true, false, none, some, [], ◌∷◌}
use pktsnare.Common.Int.{success}
use pktsnare.Promisc.{
  World, Ctx, init, query, close, enable, disable, turn, get_flags, set_flags, free,
}
use pktsnare.Promisc.Steps.{Reach, Agrees, enables, here, then_, Reach-init, disable-Reach}
use pktsnare.Promisc.Sockets.{free-Reach}

-- An interface that is not in promiscuous mode; the program has descriptors 0, 1 and 2.
abbrev before : World
before = record { flags = record { promisc = false; rest = 67 }; opened = 0 ∷ 1 ∷ 2 ∷ [] }

abbrev begun : Ctx × World
begun = ((init before (some 3) (some 4) true).1, (init before (some 3) (some 4) true).2)

abbrev on : Ctx × World
on = ((enable begun.0 begun.1 true true).1, (enable begun.0 begun.1 true true).2)

turned_on : Reach begun on
turned_on = then_ _ _ _ (enables begun.0 begun.1 true true) (here on)

on_run : (on.1.flags ≡ record { promisc = true; rest = 67 }) × (on.0.sockfd ≡ some 3)
unfolding init query enable turn get_flags set_flags close
on_run = (refl, refl)

init_run : (init before (some 3) (some 4) true).0 ≡ success
unfolding init query
init_run = refl

open_run : on.0.sockfd ≢ none
open_run = λ e. cc (e, on_run.1)

Reach-init_example : Agrees false on
Reach-init_example = Reach-init before (some 3) (some 4) true init_run turned_on

disable-Reach_example :
    ((disable on.0 on.1 true true).0 ≡ success)
    × ((disable on.0 on.1 true true).2.flags ≡ record on.1.flags { promisc = false })
disable-Reach_example = disable-Reach before (some 3) (some 4) true init_run turned_on open_run

free-Reach_example : (free on.0 on.1).1.opened ≡ 0 ∷ 1 ∷ 2 ∷ []
free-Reach_example = free-Reach before (some 3) (some 4) true turned_on
