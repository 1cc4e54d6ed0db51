-- ===== src/Session/Tests.antt =====
-- The theorems on src/session.c at concrete inputs.
use pktsnare.Common.{◌≡◌, refl, some, [], ◌∷◌, arith}
use pktsnare.Session.{Sessions, Key, opened, create, lookup}
use pktsnare.Session.Laws.{lookup-create}

abbrev key : Key
key = record { src_ip = 1; dst_ip = 2; src_port = 80; dst_port = 99; proto = 6 }

abbrev other : Key
other = record { src_ip = 9; dst_ip = 2; src_port = 80; dst_port = 99; proto = 6 }

abbrev one : Sessions
one = record { table = opened 5 other ∷ []; count = 1 }

lookup-create_example : lookup 1 (create 1 10 one key).1 key ≡ some (create 1 10 one key).0
lookup-create_example = lookup-create 1 10 one key (omega arith) refl
