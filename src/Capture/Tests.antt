-- ===== src/Capture/Tests.antt =====
-- Runs of the models of src/capture.c and src/main.c, and their theorems at concrete inputs.
use pktsnare.Common.{ℕ, ◌≡◌, refl, Bool, true, false, some, List, [], ◌∷◌, ◌++◌, arith}
use mathlib.Core.Option
use pktsnare.Common.Int.{ℤ, pos, success, failure}
use pktsnare.Common.Text.{codes, atoi, signed_value, digits_value}
use pktsnare.Capture.{Ctx, Packet, bytes, interrupted, failed, Round, loop, open_, close_, fresh}
use pktsnare.Capture.Loop.{loop-ends}
use pktsnare.Capture.Socket.{close-open_failed}
use pktsnare.Capture.Program.{
  Opt, count, snaplen, verbose, defaults, bad_snaplen, captured, parse, run, main,
}
use pktsnare.Capture.Program.Counts.{main-count, asked}

-- The handler keeps the lengths.
abbrev keep_length : Packet → List ℕ → List ℕ
keep_length p s = p.len ∷ s

abbrev rounds : List Round
rounds = (false, bytes (1 ∷ 2 ∷ []) 5) ∷ (false, interrupted) ∷ (false, bytes (3 ∷ []) 6) ∷ []

loop_run :
    Option.map (λ r. r.2) (loop keep_length (fresh 3 false) [] (rounds ++ ((true, failed) ∷ [])))
    ≡ some (1 ∷ 2 ∷ [])
unfolding loop
loop_run = refl

loop-ends_example :
    (c' : Ctx) × (loop keep_length (fresh 3 false) [] (rounds ++ ((true, failed) ∷ []))
      ≡ some (success, c', 1 ∷ 2 ∷ []))
    × (c'.pkt_count ≡ 2)
    × (c'.byte_count ≡ 3)
loop-ends_example =
    loop-ends keep_length (fresh 3 false) [] rounds [] (true, failed) success (ground arith) refl
      (omega arith) refl (omega arith) (omega arith)

close-open_failed_example :
    ((open_ (0 ∷ []) (some 3) true false true true).0 ≡ failure)
    × ((open_ (0 ∷ []) (some 3) true false true true).2 ≡ 0 ∷ [])
    × ((close_
          ((open_ (0 ∷ []) (some 3) true false true true).1)
          (3 ∷ (open_ (0 ∷ []) (some 3) true false true true).2)).1
        ≡ 0 ∷ [])
close-open_failed_example = close-open_failed (0 ∷ []) 3 true false true true refl

abbrev options : List Opt
options = count (codes "5") ∷ verbose ∷ count (codes "2") ∷ []

abbrev next : List (Bool × ℤ)
next = (true, pos 1) ∷ (true, pos 0) ∷ (true, pos 1) ∷ (true, pos 1) ∷ []

two_run : (asked defaults options).count ≡ pos 2
unfolding atoi signed_value digits_value
two_run = refl

main_run : main (snaplen (codes "12") ∷ []) true next ≡ some bad_snaplen
unfolding main parse run atoi signed_value digits_value
main_run = refl

main-count_example : main options true next ≡ some (captured (asked defaults options) 2)
main-count_example =
    main-count options next 2 (ground arith) two_run (omega arith) (ground arith) (ground arith)
      (omega arith)
