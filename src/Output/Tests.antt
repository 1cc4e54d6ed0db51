-- ===== src/Output/Tests.antt =====
-- Runs of the model of src/output.c.
use pktsnare.Common.{ℕ, ◌≡◌, refl, true, none, some, List, [], ◌∷◌, ◌++◌}
use pktsnare.Promisc.{close}
use pktsnare.Output.{text, json, file, State, init, end_, write}
use pktsnare.Output.Session.{Call, writes, formats, run, end-init, lines, sink}

abbrev as_text : ℕ → List ℕ
as_text n = n ∷ []

abbrev as_json : ℕ → List ℕ
as_json n = b'"' ∷ n ∷ b'"' ∷ []

abbrev begun : State
begun = record { format = json; out = none; opened = []; written = [] }

abbrev calls : List (Call ℕ)
calls = writes 1 ∷ formats json ∷ writes 2 ∷ []

session_run :
    (run as_text as_json calls (init text true (some 5) begun)).written
    ≡ (file 5, 1 ∷ []) ∷ (file 5, b'"' ∷ 2 ∷ b'"' ∷ []) ∷ []
unfolding init write
session_run = refl

-- A second call of `output_init` leaves the first file open.
again_run : (end_ (init text true (some 6) (init text true (some 5) begun))).opened ≡ 5 ∷ []
unfolding init end_ close
again_run = refl

end-init_example :
    ((run as_text as_json calls (init text true (some 5) begun)).written
      ≡ [] ++ lines as_text as_json (sink true (some 5)) text calls)
    × ((end_ (run as_text as_json calls (init text true (some 5) begun))).opened ≡ [])
end-init_example = end-init as_text as_json text true (some 5) calls begun
