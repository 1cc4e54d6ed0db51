-- ===== src/Flowtrack.antt =====
-- src/flowtrack.c and src/flowtrack.h: packets and bytes of each flow, in slots. The table and the
-- keys are there (no NULL). `clock_gettime(CLOCK_MONOTONIC)` is the argument `now`, of whose
-- nanoseconds the code makes no use but to store them; it never runs backwards. A pointer to an entry
-- is the index of its slot.
pub mod Laws
mod Tests
use pktsnare.Common.{
  ℕ, ◌+◌, Bool, true, false, not, ◌&&◌, Option, none, some, List, [], ◌∷◌, leb, ◌==◌, set, modify,
  replicate, add64, sub32,
}
use pktsnare.Table.Scan.{scan}
use pktsnare.Table.Slots.{clear_dead}

abbrev pub table_size : ℕ
table_size = 256

-- `struct timespec`
pub record Time : Type 0 where
  pub sec : ℕ
  pub nsec : ℕ

-- `flow_key_t`. `key_eq` compares all 38 bytes, so the byte of padding is a field.
pub record Key : Type 0 where
  pub src_ip : List ℕ
  pub dst_ip : List ℕ
  pub src_port : ℕ
  pub dst_port : ℕ
  pub proto : ℕ
  pub padding : ℕ

-- `flow_entry_t`
pub record Entry : Type 0 where
  pub key : Key
  pub pkt_count : ℕ
  pub byte_count : ℕ
  pub first_seen : Time
  pub last_seen : Time
  pub active : Bool

-- `flow_table_t`
pub record Table : Type 0 where
  pub entries : List Entry
  pub count : ℕ

abbrev no_time : Time
no_time = record { sec = 0; nsec = 0 }

abbrev pub zeroed : Entry
zeroed = record {
  key = record {
    src_ip = replicate 16 0;
    dst_ip = replicate 16 0;
    src_port = 0;
    dst_port = 0;
    proto = 0;
    padding = 0;
  };
  pkt_count = 0;
  byte_count = 0;
  first_seen = no_time;
  last_seen = no_time;
  active = false;
}

unfoldable pub init : Table
init = record { entries = replicate table_size zeroed; count = 0 }

-- `memcmp` of two arrays of bytes
abbrev pub bytes_eq : List ℕ → List ℕ → Bool
bytes_eq [] [] = true
bytes_eq [] (y ∷ ys) = false
bytes_eq (x ∷ xs) [] = false
bytes_eq (x ∷ xs) (y ∷ ys) = x == y && bytes_eq xs ys

abbrev pub key_eq : Key → Key → Bool
key_eq a b =
    bytes_eq a.src_ip b.src_ip
    && (bytes_eq a.dst_ip b.dst_ip
        && (a.src_port == b.src_port
            && (a.dst_port == b.dst_port && (a.proto == b.proto && a.padding == b.padding))))

abbrev pub holds : Key → Entry → Bool
holds key e = e.active && key_eq e.key key

abbrev pub is_free : Entry → Bool
is_free e = not e.active

unfoldable pub lookup : Table → Key → Option ℕ
lookup t key = scan (holds key) table_size t.entries

abbrev pub opened : Time → Key → Entry
opened now key = record {
  key = key;
  pkt_count = 0;
  byte_count = 0;
  first_seen = now;
  last_seen = now;
  active = true;
}

unfoldable pub insert : Time → Table → Key → Option ℕ × Table
insert now t key = elim (scan is_free table_size t.entries) [
  | none ↦ (none, t)
  | some i ↦ (some i, record { entries = set t.entries i (opened now key); count = t.count + 1 })
]

abbrev pub counted : Time → ℕ → Entry → Entry
counted now pkt_len e = record e {
  pkt_count = add64 e.pkt_count 1;
  byte_count = add64 e.byte_count pkt_len;
  last_seen = now;
}

unfoldable pub update : Time → Table → ℕ → ℕ → Table
update now t i pkt_len = record t { entries = modify t.entries i (counted now pkt_len) }

-- `active` and `(uint32_t)delta >= timeout_sec`
abbrev pub dead : Time → ℕ → Entry → Bool
dead now timeout_sec e = e.active && leb timeout_sec (sub32 now.sec e.last_seen.sec)

abbrev pub deactivate : Entry → Entry
deactivate e = record e { active = false }

unfoldable pub expire : Time → Table → ℕ → Table
expire now t timeout_sec =
    let (entries, count) = clear_dead (dead now timeout_sec) deactivate t.entries t.count in
    record { entries = entries; count = count }

abbrev pub flow_count : Table → ℕ
flow_count t = t.count
