-- ===== src/Ring/Queue.antt =====
-- What src/ring.c promises: a queue of packets that holds `cap` of them at most, forgets the oldest
-- when another comes, and counts those it forgot.
use pktsnare.Common.{ℕ, List, [], ◌∷◌, ◌++◌, Option, none, some, length, add64, ◌==◌, if◌then◌else◌}

-- The bytes of a packet and its timestamp.
abbrev pub Packet : Type 0
Packet = List ℕ × ℕ

pub record Queue : Type 0 where
  pub held : List Packet
  pub lost : ℕ

abbrev pub rest : List Packet → List Packet
rest [] = []
rest (p ∷ ps) = ps

unfoldable pub push : ℕ → Queue → Packet → Queue
push cap q p =
    if length q.held == cap
    then record { held = rest q.held ++ p ∷ []; lost = add64 q.lost 1 }
    else record { held = q.held ++ p ∷ []; lost = q.lost }

abbrev pub oldest : List Packet → Option Packet
oldest [] = none
oldest (p ∷ ps) = some p

unfoldable pub pop : Queue → Option Packet × Queue
pop q = (oldest q.held, record { held = rest q.held; lost = q.lost })
