-- ===== src/Portmap/Tests.antt =====
-- The theorems on src/portmap.c at concrete inputs.
use pktsnare.Common.{ℕ, ◌≡◌, refl, some, List, [], ◌∷◌, arith}
use pktsnare.Portmap.{Portmap, clear, register, lookup}
use pktsnare.Portmap.Laws.{IsValid, lookup-register}

abbrev ssh : List ℕ
ssh = 115 ∷ 115 ∷ 104 ∷ []

clear-IsValid : IsValid clear
unfolding clear
clear-IsValid = record { space = refl; bounded = omega arith; unique = λ a b. omega arith }

abbrev one : Portmap
one = (register clear 2222 6 ssh).1

lookup-register_example : lookup one 2222 6 ≡ some ssh
unfolding clear
lookup-register_example = (lookup-register clear 2222 6 2222 6 ssh clear-IsValid (omega arith)).1
