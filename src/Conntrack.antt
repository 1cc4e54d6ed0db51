-- ===== src/Conntrack.antt =====
-- src/conntrack.c and src/conntrack.h: connections in an open-addressing hash table.
-- `time(NULL)` is the argument `now`, at least 0. The context and the keys are there (no NULL);
-- `calloc` is a Boolean argument that says whether it succeeds. The outer `none` of `probe`,
-- `update` and `lookup` is an access past the array or a loop that has not ended: see Probe.
pub mod Probe
pub mod Invariant
pub mod Found
pub mod Expiry
mod Tests
use pktsnare.Common.{
  ℕ, zero, suc, ◌+◌, ◌-◌, ◌*◌, ◌/◌, ◌%◌, ◌^◌, Bool, true, false, not, ◌&&◌, ◌||◌, Option, none,
  some, List, [], ◌∷◌, ◌==◌, if◌then◌else◌, get_elem?, set, replicate, add32, add64, bit_or,
  bit_xor,
}
use pktsnare.Common.Int.{ℤ, pos, sub_ℕ, leb_ℤ, pos_part, success, failure}

abbrev pub max_entries : ℕ
max_entries = 1024

pub data State : Type 0 where
  new established closing closed : State

-- `conn_key_t`. `key_eq` compares all 16 bytes, so the three bytes of padding are a field.
pub record Key : Type 0 where
  pub src_ip : ℕ
  pub dst_ip : ℕ
  pub src_port : ℕ
  pub dst_port : ℕ
  pub proto : ℕ
  pub padding : ℕ

-- `conn_entry_t`
pub record Entry : Type 0 where
  pub key : Key
  pub state : State
  pub bytes_fwd : ℕ
  pub bytes_rev : ℕ
  pub pkts_fwd : ℕ
  pub pkts_rev : ℕ
  pub first_seen : ℕ
  pub last_seen : ℕ

-- `struct conntrack_ctx`; `limit` is `max`.
pub record Ctx : Type 0 where
  pub entries : List Entry
  pub limit : ℕ
  pub count : ℕ

abbrev pub no_key : Key
no_key = record { src_ip = 0; dst_ip = 0; src_port = 0; dst_port = 0; proto = 0; padding = 0 }

-- What `calloc` puts into a slot.
abbrev pub zeroed : Entry
zeroed = record {
  key = no_key;
  state = new;
  bytes_fwd = 0;
  bytes_rev = 0;
  pkts_fwd = 0;
  pkts_rev = 0;
  first_seen = 0;
  last_seen = 0;
}

unfoldable pub conn_hash : Key → ℕ → ℕ
conn_hash k limit =
    let a = bit_xor k.src_ip k.dst_ip in
    let b = bit_xor a (bit_or (k.src_port * 2 ^ 16) k.dst_port) in
    let c = bit_xor b k.proto in bit_xor c (c / 2 ^ 16) % limit

-- `memcmp` over the whole struct
unfoldable pub key_eq : Key → Key → Bool
key_eq a b =
    a.src_ip == b.src_ip
    && a.dst_ip == b.dst_ip
    && a.src_port == b.src_port
    && a.dst_port == b.dst_port
    && a.proto == b.proto
    && a.padding == b.padding

abbrev pub is_new : State → Bool
is_new new = true
is_new _ = false

abbrev pub is_closed : State → Bool
is_closed closed = true
is_closed _ = false

unfoldable pub init : ℤ → Bool → Bool → Option Ctx
init limit struct_allocated entries_allocated =
    let cap = if leb_ℤ limit (pos 0) then max_entries else pos_part limit in
    if struct_allocated && entries_allocated
    then some (record { entries = replicate cap zeroed; limit = cap; count = 0 })
    else none

-- The loop `do { … } while (idx != start)` of `conntrack_update` and `conntrack_lookup`, up to the
-- first entry at which its body returns. `some none` is the loop that ends by its condition.
unfoldable pub probe : (Entry → Bool) → ℕ → List Entry → ℕ → ℕ → ℕ → Option (Option ℕ)
probe stops zero es limit start idx = none
probe stops (suc fuel) es limit start idx = elim (get_elem? es idx) [
  | none ↦ none
  | some e ↦ elim (stops e) [
    | true ↦ some (some idx)
    | false ↦ elim ((idx + 1) % limit == start) [
      | true ↦ some none
      | false ↦ probe stops fuel es limit start ((idx + 1) % limit)
    ]
  ]
]

-- The test of an empty slot
abbrev pub is_empty : Entry → Bool
is_empty e = is_closed e.state || is_new e.state && e.first_seen == 0

-- The entry that is written to an empty slot
abbrev pub opened : Key → ℕ → Bool → ℕ → Entry
opened key pkt_len is_reverse now = record {
  key = key;
  state = new;
  first_seen = now;
  last_seen = now;
  bytes_fwd = if is_reverse then 0 else pkt_len;
  bytes_rev = if is_reverse then pkt_len else 0;
  pkts_fwd = if is_reverse then 0 else 1;
  pkts_rev = if is_reverse then 1 else 0;
}

-- The entry of the key, with one more packet
abbrev pub touched : ℕ → Bool → ℕ → Entry → Entry
touched pkt_len is_reverse now e = record e {
  last_seen = now;
  bytes_fwd = if is_reverse then e.bytes_fwd else add64 e.bytes_fwd pkt_len;
  bytes_rev = if is_reverse then add64 e.bytes_rev pkt_len else e.bytes_rev;
  pkts_fwd = if is_reverse then e.pkts_fwd else add32 e.pkts_fwd 1;
  pkts_rev = if is_reverse then add32 e.pkts_rev 1 else e.pkts_rev;
  state = if is_new e.state then established else e.state;
}

abbrev pub stops_update : Key → Entry → Bool
stops_update key e = is_empty e || key_eq e.key key

-- What the body of the loop of `conntrack_update` does at the entry where it returns
unfoldable pub update_at : Ctx → Key → ℕ → Bool → ℕ → ℕ → Entry → ℤ × Ctx
update_at c key pkt_len is_reverse now i e =
    if is_empty e
    then (
      success,
      record c {
        entries = set c.entries i (opened key pkt_len is_reverse now);
        count = c.count + 1;
      },
    )
    else (success, record c { entries = set c.entries i (touched pkt_len is_reverse now e) })

unfoldable pub update : Ctx → Key → ℕ → Bool → ℕ → Option (ℤ × Ctx)
unfolding update_at
update c key pkt_len is_reverse now =
    let start = conn_hash key c.limit in
    elim (probe (stops_update key) c.limit c.entries c.limit start start) [
      | none ↦ none
      | some none ↦ some (failure, c)
      | some (some i) ↦ elim (get_elem? c.entries i) [
        | none ↦ none
        | some e ↦ some (update_at c key pkt_len is_reverse now i e)
      ]
    ]

abbrev pub stops_lookup : Key → Entry → Bool
stops_lookup key e = not (e.first_seen == 0) && key_eq e.key key

-- The entry that the returned pointer points to
unfoldable pub lookup : Ctx → Key → Option (Option Entry)
lookup c key =
    let start = conn_hash key c.limit in
    elim (probe (stops_lookup key) c.limit c.entries c.limit start start) [
      | none ↦ none
      | some none ↦ some none
      | some (some i) ↦ some (get_elem? c.entries i)
    ]

-- The two tests of `conntrack_expire`; `now - e->last_seen` is signed.
abbrev pub is_old : ℕ → ℤ → Entry → Bool
is_old now timeout e =
    not (e.first_seen == 0) && not (is_closed e.state) && leb_ℤ timeout (sub_ℕ now e.last_seen)

abbrev pub close : Entry → Entry
close e = record e { state = closed }

-- The loop of `conntrack_expire` over the array, with `count` and `expired`
unfoldable pub expire_from : ℕ → ℤ → List Entry → ℕ → ℕ → List Entry × ℕ × ℕ
expire_from now timeout [] count expired = ([], count, expired)
expire_from now timeout (e ∷ es) count expired =
    let old = is_old now timeout e in
    let (rest, count', expired') =
      expire_from now timeout es (if old then count - 1 else count)
        (if old then expired + 1 else expired) in
    ((if old then close e else e) ∷ rest, count', expired')

unfoldable pub expire : Ctx → ℕ → ℤ → ℕ × Ctx
expire c now timeout =
    let (entries, count, expired) = expire_from now timeout c.entries c.count 0 in
    (expired, record c { entries = entries; count = count })
