-- ===== src/Mactrack/Tests.antt =====
-- The theorems on src/mactrack.c at concrete inputs.
use pktsnare.Common.{ℕ, ◌≡◌, not, ◌&&◌, List, [], ◌∷◌}
use pktsnare.Common.Filter.{keep}
use pktsnare.Common.Int.{pos}
use pktsnare.Mactrack.{Table, init, update, expire, dead}
use pktsnare.Mactrack.Laws.{active, init-IsValid, update-counted, expire-keep}

abbrev mac : List ℕ
mac = 2 ∷ 0 ∷ 0 ∷ 0 ∷ 0 ∷ 1 ∷ []

abbrev one : Table
one = (update 100 init mac 7 60).1

expire-keep_example :
    keep active (expire 500 one (pos 300)).entries
    ≡ keep (λ e. active e && not (dead 500 (pos 300) e)) one.entries
expire-keep_example =
    (expire-keep 500 one (pos 300) (update-counted 100 init mac 7 60 init-IsValid)).0
