-- ===== src/Ring/Tests.antt =====
-- Runs of the model of src/ring.c, and its theorems at concrete inputs.
use pktsnare.Common.{ℕ, ◌≡◌, refl, List, [], ◌∷◌, arith}
use pktsnare.Ring.{Ring, zeroed, push, pop, make_room, store, fill}
use pktsnare.Ring.Invariant.{IsValid}
use pktsnare.Ring.Refines.{view}
use pktsnare.Ring.Calls.{Call, pushes, pops, step, run, spec_run, run_refines}

-- A ring of two slots, as `ring_create` leaves it.
abbrev two_slots : Ring
two_slots = record {
  entries = zeroed ∷ zeroed ∷ [];
  capacity = 2;
  head = 0;
  tail = 0;
  count = 0;
  dropped = 0;
}

two_slots-IsValid : IsValid two_slots
two_slots-IsValid = record {
  space = refl;
  nonempty = omega arith;
  small = omega arith;
  tail_in = omega arith;
  count_in = omega arith;
  head_eq = refl;
}

abbrev packet_a : List ℕ
packet_a = 1 ∷ 2 ∷ 3 ∷ []

-- Three packets into two slots: the first is lost.
abbrev calls : List Call
calls =
    pushes packet_a 3 10
    ∷ pushes packet_a 2 11
    ∷ pushes packet_a 0 12
    ∷ pushes packet_a 1 13
    ∷ pops
    ∷ []

overwrite_run : (view (run two_slots calls).1).lost ≡ 1
unfolding run step push make_room store fill pop zeroed
overwrite_run = refl

run_refines_example :
    (let (replies, last) = run two_slots calls in (replies, view last))
    ≡ spec_run 2 (view two_slots) calls
run_refines_example =
    run_refines calls two_slots-IsValid
      (omega arith, (omega arith, (omega arith, (omega arith, (tt, tt)))))
