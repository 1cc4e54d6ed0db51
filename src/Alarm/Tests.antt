-- ===== src/Alarm/Tests.antt =====
-- The theorems on src/alarm.c at concrete inputs.
use pktsnare.Common.{◌≡◌, false, [], ◌∷◌, arith}
use pktsnare.Alarm.{Rule, rule, warn}
use pktsnare.Alarm.Edges.{watch, rises, watch-rises}

abbrev hundred : Rule
hundred = rule (120 ∷ []) 100 warn

-- Up, on, down, up: two alarms.
watch-rises_example :
    (watch hundred (120 ∷ 130 ∷ 90 ∷ 100 ∷ [])).1 ≡ rises 100 false (120 ∷ 130 ∷ 90 ∷ 100 ∷ [])
watch-rises_example = (watch-rises hundred (120 ∷ 130 ∷ 90 ∷ 100 ∷ []) (omega arith)).0
