-- ===== src/Ipdefrag/Tests.antt =====
-- Runs of the model of src/ipdefrag.c, and its theorems at concrete inputs.
use pktsnare.Common.{
  ℕ, zero, suc, ◌+◌, ◌<◌, ◌≡◌, refl, true, false, none, some, List, [], ◌∷◌, arith, get_elem?, take,
  All,
}
use mathlib.Core.Option
use pktsnare.Table.Scan.{scan}
use mathlib.Core.Option.{some-injective}
use pktsnare.Ipdefrag.{
  Status, complete, pending, Table, Key, max_frags, copy_in, receive, add_to_entry, find_entry,
  alloc_entry, entry_for, add, get, init,
}
use pktsnare.Ipdefrag.Writes.{IsValid}
use pktsnare.Ipdefrag.Total.{add-IsValid, add-wrapped}
use pktsnare.Ipdefrag.Whole.{deliver}
use pktsnare.Ipdefrag.Cover.{Piece, IsPart}
use pktsnare.Ipdefrag.Reassembly.{deliver_parts, covered, get-deliver_parts}

abbrev key : Key
key = record { id = 7; src = 1; dst = 2 }

init-IsValid : IsValid init
unfolding init
init-IsValid = record { space = refl; bound = omega arith; each = λ i e h at. absurd (omega arith) }

-- A datagram of two pieces, and what is left when it has been read
deliver_run :
    Option.map (λ r. r.0) (deliver init key 0 ((1 ∷ 2 ∷ []) ∷ []) (3 ∷ []) [])
    ≡ some (pending ∷ complete ∷ [])
unfolding init deliver add entry_for find_entry scan alloc_entry add_to_entry receive copy_in
deliver_run = refl

-- The first piece comes twice: the datagram counts as whole, with two bytes that were never sent.
doubled_run :
    Option.map
      (λ r. r.0)
      (add
        (elim (add init key 0 true (1 ∷ 2 ∷ []) 2 true []) [
          | none ↦ init
          | some r ↦ elim (add r.1 key 0 true (1 ∷ 2 ∷ []) 2 true []) [ none ↦ init | some s ↦ s.1 ]
        ])
        key
        4
        false
        []
        0
        true
        (9 ∷ 9 ∷ []))
    ≡ some complete
unfolding init deliver add entry_for find_entry scan alloc_entry add_to_entry receive copy_in
doubled_run = refl

add-IsValid_example :
    (status : Status) × (t' : Table) × (add init key 0 true (1 ∷ []) 1 true [] ≡ some (status, t'))
    × IsValid t'
add-IsValid_example =
    add-IsValid init key 0 true (1 ∷ []) 1 true [] init-IsValid (omega arith) (omega arith)

entry_for_run : (entry_for init key).0 ≡ some 0
unfolding init entry_for find_entry scan alloc_entry
entry_for_run = refl

add-wrapped_example : add init key 65528 true (1 ∷ []) 8 true [] ≡ none
add-wrapped_example =
    add-wrapped init key 65528 true (1 ∷ []) 8 [] 0 init-IsValid entry_for_run (omega arith)

find_run : find_entry init key ≡ none
unfolding init find_entry scan
find_run = refl

room_run : init.count < max_frags
unfolding init
room_run = omega arith

abbrev sent : List ℕ
sent = 1 ∷ 2 ∷ 3 ∷ []

-- The end, the beginning, and a piece that overlaps both
abbrev pieces : List Piece
pieces =
    record { offset = 2; bytes = 3 ∷ []; more = false }
    ∷ record { offset = 0; bytes = 1 ∷ 2 ∷ []; more = true }
    ∷ record { offset = 1; bytes = 2 ∷ 3 ∷ []; more = false }
    ∷ []

one_same : (j : ℕ) → j < 1 → get_elem? (3 ∷ []) j ≡ get_elem? sent (2 + j)
one_same zero h = refl
one_same (suc j) h = absurd (omega arith)

two_same : (j : ℕ) → j < 2 → get_elem? (1 ∷ 2 ∷ []) j ≡ get_elem? sent (0 + j)
two_same zero h = refl
two_same (suc zero) h = refl
two_same (suc (suc j)) h = absurd (omega arith)

three_same : (j : ℕ) → j < 2 → get_elem? (2 ∷ 3 ∷ []) j ≡ get_elem? sent (1 + j)
three_same zero h = refl
three_same (suc zero) h = refl
three_same (suc (suc j)) h = absurd (omega arith)

pieces-IsPart : All (IsPart sent) pieces
pieces-IsPart = (
  record { same = one_same; inside = omega arith; last = refl },
  (
    record { same = two_same; inside = omega arith; last = refl },
    (record { same = three_same; inside = omega arith; last = refl }, tt),
  ),
)

pieces_cover : (j : ℕ) → j < 3 → covered pieces j ≡ true
pieces_cover j h = ground arith

get-deliver_parts_example :
    (t' : Table) × (t'' : Table) × (deliver_parts init key pieces [] ≡ some t')
    × (get t' key 100 ≡ some (complete, some (1 ∷ 2 ∷ 3 ∷ []), t''))
    × (t''.count ≡ init.count)
    × (take init.count t''.entries ≡ take init.count init.entries)
get-deliver_parts_example =
    get-deliver_parts init key sent pieces [] 100 (init-IsValid.space) room_run find_run
      pieces-IsPart pieces_cover (omega arith) (omega arith) (omega arith)
