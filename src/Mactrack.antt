-- ===== src/Mactrack.antt =====
-- src/mactrack.c and src/mactrack.h: what each hardware address has sent, in slots. The table and the
-- addresses are there (no NULL), `time(NULL)` is the argument `now`, and a flag is a Bool.
pub mod Laws
mod Tests
use pktsnare.Common.{
  ℕ, ◌+◌, Bool, true, false, not, ◌&&◌, Option, none, some, List, [], ◌∷◌, ◌==◌, get_elem?, set,
  modify, replicate, add32, add64,
}
use pktsnare.Common.Int.{ℤ, pos, sub_ℕ, ltb_ℤ, success, failure}
use pktsnare.Table.Scan.{scan}
use pktsnare.Table.Slots.{clear_dead}

abbrev pub max_entries : ℕ
max_entries = 256

-- `mactrack_entry_t`; the six bytes of the address are a list.
pub record Entry : Type 0 where
  pub mac : List ℕ
  pub last_ip : ℕ
  pub pkt_count : ℕ
  pub byte_count : ℕ
  pub first_seen : ℕ
  pub last_seen : ℕ
  pub active : Bool

-- `mactrack_table_t`
pub record Table : Type 0 where
  pub entries : List Entry
  pub count : ℕ

abbrev pub zeroed : Entry
zeroed = record {
  mac = replicate 6 0;
  last_ip = 0;
  pkt_count = 0;
  byte_count = 0;
  first_seen = 0;
  last_seen = 0;
  active = false;
}

unfoldable pub init : Table
init = record { entries = replicate max_entries zeroed; count = 0 }

-- `memcmp` of the addresses
abbrev pub mac_eq : List ℕ → List ℕ → Bool
mac_eq [] [] = true
mac_eq [] (y ∷ ys) = false
mac_eq (x ∷ xs) [] = false
mac_eq (x ∷ xs) (y ∷ ys) = x == y && mac_eq xs ys

abbrev pub holds : List ℕ → Entry → Bool
holds mac e = e.active && mac_eq e.mac mac

abbrev pub is_free : Entry → Bool
is_free e = not e.active

abbrev pub seen_again : ℕ → ℕ → ℕ → Entry → Entry
seen_again now ip pkt_len e = record e {
  last_ip = ip;
  pkt_count = add32 e.pkt_count 1;
  byte_count = add64 e.byte_count pkt_len;
  last_seen = now;
}

abbrev pub first_sight : ℕ → List ℕ → ℕ → ℕ → Entry
first_sight now mac ip pkt_len = record {
  mac = mac;
  last_ip = ip;
  pkt_count = 1;
  byte_count = pkt_len;
  first_seen = now;
  last_seen = now;
  active = true;
}

-- The second loop of `mactrack_update`, which looks for a free slot
unfoldable pub claim : ℕ → Table → List ℕ → ℕ → ℕ → ℤ × Table
claim now t mac ip pkt_len = elim (scan is_free max_entries t.entries) [
  | none ↦ (failure, t)
  | some i ↦ (
    success,
    record { entries = set t.entries i (first_sight now mac ip pkt_len); count = t.count + 1 },
  )
]

unfoldable pub update : ℕ → Table → List ℕ → ℕ → ℕ → ℤ × Table
update now t mac ip pkt_len = elim (scan (holds mac) max_entries t.entries) [
  | some i ↦ (success, record t { entries = modify t.entries i (seen_again now ip pkt_len) })
  | none ↦ claim now t mac ip pkt_len
]

-- The slot that `mactrack_lookup` points to
unfoldable pub lookup : Table → List ℕ → Option Entry
lookup t mac = elim (scan (holds mac) max_entries t.entries) [
  | none ↦ none
  | some i ↦ get_elem? t.entries i
]

-- `e->active && (now - e->last_seen) > max_age`, in signed arithmetic
abbrev pub dead : ℕ → ℤ → Entry → Bool
dead now max_age e = e.active && ltb_ℤ max_age (sub_ℕ now e.last_seen)

abbrev pub wipe : Entry → Entry
wipe e = zeroed

unfoldable pub expire : ℕ → Table → ℤ → Table
expire now t max_age =
    let (entries, count) = clear_dead (dead now max_age) wipe t.entries t.count in
    record { entries = entries; count = count }

unfoldable pub reset : Table
reset = init
