-- ===== src/Ttltrack/Tests.antt =====
-- The theorems on src/ttltrack.c at concrete inputs.
use pktsnare.Ttltrack.{init, update}
use pktsnare.Ttltrack.Laws.{IsValid, init-judged, update-judged}

update-judged_example : IsValid (update 50 init 9 64).1
update-judged_example = update-judged 50 init 9 64 init-judged
