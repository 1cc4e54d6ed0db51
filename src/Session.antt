-- ===== src/Session.antt =====
-- src/session.c: sessions in a table with one slot per hash. The file does not agree with
-- src/session.h: the header declares other records and functions, and the constant SESSION_TABLE_SIZE,
-- which the code uses, nowhere. So the size of the table is an argument, and the entry is the one that
-- the code of src/session.c reads and writes. The two globals are one record. `time(NULL)` is the
-- argument `now`, a flag is a Bool, and a pointer to an entry is the index of its slot.
pub mod Laws
mod Tests
use pktsnare.Common.{
  ℕ, ◌+◌, ◌*◌, ◌/◌, ◌%◌, ◌^◌, Bool, true, false, ◌&&◌, ◌||◌, Option, none, some, List, ltb, ◌==◌,
  if◌then◌else◌, get_or, set, modify, replicate, add64, sub32, bit_or, bit_xor,
}
use pktsnare.Table.Slots.{clear_dead}

-- `session_entry_t`, as src/session.c uses it
pub record Entry : Type 0 where
  pub src_ip : ℕ
  pub dst_ip : ℕ
  pub src_port : ℕ
  pub dst_port : ℕ
  pub proto : ℕ
  pub pkt_count : ℕ
  pub byte_count : ℕ
  pub first_seen : ℕ
  pub last_seen : ℕ
  pub active : Bool

-- `session_table` and `session_count`
pub record Sessions : Type 0 where
  pub table : List Entry
  pub count : ℕ

-- The five arguments that name a session
pub record Key : Type 0 where
  pub src_ip : ℕ
  pub dst_ip : ℕ
  pub src_port : ℕ
  pub dst_port : ℕ
  pub proto : ℕ

abbrev pub zeroed : Entry
zeroed = record {
  src_ip = 0;
  dst_ip = 0;
  src_port = 0;
  dst_port = 0;
  proto = 0;
  pkt_count = 0;
  byte_count = 0;
  first_seen = 0;
  last_seen = 0;
  active = false;
}

unfoldable pub init : ℕ → Sessions
init table_size = record { table = replicate table_size zeroed; count = 0 }

unfoldable pub session_hash : ℕ → Key → ℕ
session_hash table_size k =
    let a = bit_xor k.src_ip k.dst_ip in
    let b = bit_xor a (bit_or (k.src_port * 2 ^ 16) k.dst_port) in
    let c = bit_xor b k.proto in
    let d = bit_xor c (c / 2 ^ 16) in
    let e = d * 0x45d9f3b % 2 ^ 32 in bit_xor e (e / 2 ^ 16) % table_size

-- The test of `session_lookup`, in either direction
abbrev pub holds : Key → Entry → Bool
holds k e =
    e.active
    && ((e.src_ip == k.src_ip
            && (e.dst_ip == k.dst_ip && (e.src_port == k.src_port && e.dst_port == k.dst_port))
          || e.src_ip == k.dst_ip
            && (e.dst_ip == k.src_ip && (e.src_port == k.dst_port && e.dst_port == k.src_port)))
        && e.proto == k.proto)

unfoldable pub lookup : ℕ → Sessions → Key → Option ℕ
lookup table_size s k =
    let idx = session_hash table_size k in
    if holds k (get_or s.table idx zeroed) then some idx else none

abbrev pub opened : ℕ → Key → Entry
opened now k = record {
  src_ip = k.src_ip;
  dst_ip = k.dst_ip;
  src_port = k.src_port;
  dst_port = k.dst_port;
  proto = k.proto;
  pkt_count = 0;
  byte_count = 0;
  first_seen = now;
  last_seen = now;
  active = true;
}

-- The slot is written whatever it holds.
unfoldable pub create : ℕ → ℕ → Sessions → Key → ℕ × Sessions
create table_size now s k =
    let idx = session_hash table_size k in
    (idx, record { table = set s.table idx (opened now k); count = s.count + 1 })

-- `pkt_count` and `byte_count` are printed as `unsigned long`, taken to have 64 bits.
unfoldable pub update : ℕ → Sessions → ℕ → ℕ → Sessions
update now s i pkt_len = record s {
  table = modify s.table i λ e. record e {
    pkt_count = add64 e.pkt_count 1;
    byte_count = add64 e.byte_count pkt_len;
    last_seen = now;
  };
}

abbrev pub dead : ℕ → ℕ → Entry → Bool
dead now timeout_secs e = e.active && ltb timeout_secs (sub32 now e.last_seen)

abbrev pub wipe : Entry → Entry
wipe e = zeroed

unfoldable pub expire : ℕ → Sessions → ℕ → Sessions
expire now s timeout_secs =
    let (table, count) = clear_dead (dead now timeout_secs) wipe s.table s.count in
    record { table = table; count = count }

abbrev pub get_count : Sessions → ℕ
get_count s = s.count
