-- ===== src/Fragtrack.antt =====
-- src/fragtrack.c and src/fragtrack.h: the fragments of datagrams, in a packed array. The table is
-- there (no NULL), `time(NULL)` is the argument `now`, and a flag is a Bool. The table's address does
-- not change, so a pointer to an entry is its index.
pub mod Laws
pub mod Coverage
pub mod Datagrams
pub mod Arrays
pub mod Updates
pub mod Completion
mod Tests
use pktsnare.Common.{
  ℕ, zero, suc, ◌+◌, ◌-◌, Bool, true, false, not, ◌&&◌, Option, none, some, List, [], ◌∷◌, ltb, leb,
  ◌==◌, if◌then◌else◌, get_or, set, replicate, add8, add16, add64,
}
use pktsnare.Common.Int.{ℤ, success, failure}
use pktsnare.Table.Scan.{scan}
use pktsnare.Table.Packed.{sweep, copy_slot}

abbrev pub max_entries : ℕ
max_entries = 64

abbrev pub timeout_sec : ℕ
timeout_sec = 30

abbrev pub max_frags : ℕ
max_frags = 16

-- `frag_entry_t`
pub record Entry : Type 0 where
  pub src_ip : ℕ
  pub dst_ip : ℕ
  pub ip_id : ℕ
  pub protocol : ℕ
  pub frag_count : ℕ
  pub frag_offsets : List ℕ
  pub frag_sizes : List ℕ
  pub total_len : ℕ
  pub complete : Bool
  pub first_seen : ℕ
  pub last_seen : ℕ

-- `fragtrack_t`
pub record Table : Type 0 where
  pub entries : List Entry
  pub count : ℕ
  pub reassembled : ℕ
  pub dropped : ℕ
  pub expired : ℕ

abbrev pub zeroed : Entry
zeroed = record {
  src_ip = 0;
  dst_ip = 0;
  ip_id = 0;
  protocol = 0;
  frag_count = 0;
  frag_offsets = replicate max_frags 0;
  frag_sizes = replicate max_frags 0;
  total_len = 0;
  complete = false;
  first_seen = 0;
  last_seen = 0;
}

unfoldable pub init : Table
init = record {
  entries = replicate max_entries zeroed;
  count = 0;
  reassembled = 0;
  dropped = 0;
  expired = 0;
}

-- The four values that name a datagram
pub record Key : Type 0 where
  pub src : ℕ
  pub dst : ℕ
  pub ip_id : ℕ
  pub proto : ℕ

abbrev pub holds : Key → Entry → Bool
holds k e =
    e.src_ip == k.src && (e.dst_ip == k.dst && (e.ip_id == k.ip_id && e.protocol == k.proto))

unfoldable pub find_entry : Table → Key → Option ℕ
find_entry t k = scan (holds k) t.count t.entries

-- `(now - last_seen) > FRAGTRACK_TIMEOUT_SEC`, in signed arithmetic
abbrev pub stale : ℕ → Entry → Bool
stale now e = ltb (e.last_seen + timeout_sec) now

unfoldable pub expire : Table → ℕ → Table
expire t now =
    let (entries, count, expired) =
      sweep (stale now) (λ e. not e.complete) t.count 0 t.entries t.expired in
    record t { entries = entries; count = count; expired = expired }

abbrev pub opened : ℕ → Key → Entry
opened now k = record zeroed {
  src_ip = k.src;
  dst_ip = k.dst;
  ip_id = k.ip_id;
  protocol = k.proto;
  first_seen = now;
}

-- The loop that sums the first `n` sizes in 16 bits
unfoldable pub covered : ℕ → List ℕ → ℕ → ℕ
covered zero sizes sum = sum
covered (suc n) [] sum = sum
covered (suc n) (size ∷ sizes) sum = covered n sizes (add16 sum size)

-- The fragment in its entry, before the test of completeness
abbrev pub placed : ℕ → ℕ → ℕ → Bool → Entry → Entry
placed now offset size more_frags e = record e {
  frag_offsets = set e.frag_offsets e.frag_count offset;
  frag_sizes = set e.frag_sizes e.frag_count size;
  frag_count = add8 e.frag_count 1;
  last_seen = now;
  total_len = if more_frags then e.total_len else add16 offset size;
}

-- `e->total_len > 0` and `covered >= e->total_len`
unfoldable pub is_covered : Entry → Bool
is_covered e = ltb 0 e.total_len && leb e.total_len (covered e.frag_count e.frag_sizes 0)

-- `fragtrack_add`, once `e` is the entry of slot `i`
unfoldable pub add_fragment : ℕ → Table → ℕ → Entry → ℕ → ℕ → Bool → ℤ × Table
add_fragment now t i e offset size more_frags =
    let e' = placed now offset size more_frags e in
    if leb max_frags e.frag_count
    then (failure, record t { dropped = add64 t.dropped 1; entries = set t.entries i e })
    else if is_covered e'
    then (
      success,
      record t {
        entries = set t.entries i (record e' { complete = true });
        reassembled = add64 t.reassembled 1;
      },
    )
    else (success, record t { entries = set t.entries i e' })

-- `fragtrack_add` behind its call of `fragtrack_expire`
unfoldable pub add_live : ℕ → Table → Key → ℕ → ℕ → Bool → ℤ × Table
add_live now t k offset size more_frags = elim (find_entry t k) [
  | some i ↦ add_fragment now t i (get_or t.entries i zeroed) offset size more_frags
  | none ↦
      if leb max_entries t.count
      then (failure, record t { dropped = add64 t.dropped 1 })
      else add_fragment now (record t { count = t.count + 1 }) t.count (opened now k) offset size
          more_frags
]

unfoldable pub add : ℕ → Table → Key → ℕ → ℕ → Bool → ℤ × Table
add now t k offset size more_frags = add_live now (expire t now) k offset size more_frags

unfoldable pub is_complete : Table → Key → Bool
is_complete t k = elim (find_entry t k) [
  | none ↦ false
  | some i ↦ (get_or t.entries i zeroed).complete
]

unfoldable pub remove : Table → Key → Table
remove t k = elim (scan (holds k) t.count t.entries) [
  | none ↦ t
  | some i ↦ record t { entries = copy_slot t.entries i (t.count - 1); count = t.count - 1 }
]

-- The three counters that `fragtrack_stats` copies out
abbrev pub stats : Table → ℕ × ℕ × ℕ
stats t = (t.reassembled, t.dropped, t.expired)
