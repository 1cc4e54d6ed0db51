-- ===== src/Flowtrack/Tests.antt =====
-- Runs of the model of src/flowtrack.c.
use pktsnare.Common.{◌≡◌, refl, none, some, [], ◌∷◌}
use pktsnare.Table.Scan.{scan}
use pktsnare.Table.Slots.{clear_dead}
use pktsnare.Flowtrack.{Time, Key, Table, init, insert, lookup, expire, flow_count}

abbrev ten : Time
ten = record { sec = 10; nsec = 5 }

abbrev eighty : Time
eighty = record { sec = 80; nsec = 0 }

abbrev key : Key
key = record {
  src_ip = 10 ∷ [];
  dst_ip = 11 ∷ [];
  src_port = 80;
  dst_port = 99;
  proto = 6;
  padding = 0;
}

abbrev one : Table
one = (insert ten init key).1

insert_run : (lookup one key ≡ some 0) × (flow_count one ≡ 1)
unfolding insert init lookup scan
insert_run = (refl, refl)

expire_run : (lookup (expire eighty one 60) key ≡ none) × (flow_count (expire eighty one 60) ≡ 0)
unfolding expire insert init lookup scan clear_dead
expire_run = (refl, refl)
