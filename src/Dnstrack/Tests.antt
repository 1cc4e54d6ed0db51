-- ===== src/Dnstrack/Tests.antt =====
-- Runs of the model of src/dnstrack.c, and its theorems at concrete inputs.
use pktsnare.Common.{ℕ, ◌≡◌, refl, some, List, [], ◌∷◌, arith}
use pktsnare.Common.Int.{pos}
use pktsnare.Table.Scan.{scan}
use pktsnare.Table.Packed.{sweep, copy_slot}
use pktsnare.Dnstrack.{Ctx, init, answer, query, add_query, match_response, expire, lookup}
use pktsnare.Dnstrack.Invariant.{IsValid, Call, queries, answers, run, run-IsValid, init-IsValid}
use pktsnare.Dnstrack.Laws.{live, lookup-match_response-add_query}

abbrev name : List ℕ
name = 97 ∷ 46 ∷ 98 ∷ []

abbrev calls : List Call
calls = queries 100 7 name 1 1 ∷ queries 130 8 name 1 1 ∷ answers 7 42 ∷ []

abbrev two : Ctx
two = run (init (pos 30)) calls

-- Entry 7 is 31 seconds old and goes; entry 8 moves into its slot.
expire_run : live (expire two 131) ≡ query 130 8 name 1 1 ∷ []
unfolding run expire init add_query match_response scan sweep copy_slot
expire_run = refl

lookup_run : lookup two 7 ≡ some (answer 42 (query 100 7 name 1 1))
unfolding run init add_query match_response lookup scan
lookup_run = refl

run-IsValid_example : IsValid two
run-IsValid_example = run-IsValid (pos 30) calls

lookup-match_response-add_query_example :
    lookup (match_response (add_query (init (pos 30)) 100 7 name 1 1).1 7 42).1 7
    ≡ some (answer 42 (query 100 7 name 1 1))
unfolding init
lookup-match_response-add_query_example =
    (lookup-match_response-add_query (init (pos 30)) 100 7 name 1 1 42 (init-IsValid (pos 30))
      (omega arith) tt).2
