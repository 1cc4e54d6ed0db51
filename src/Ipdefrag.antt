-- ===== src/Ipdefrag.antt =====
-- src/ipdefrag.c: datagrams put together from their fragments. src/ipdefrag.h declares other functions
-- and no `frag_entry_t`, so the entry is the one that the code of src/ipdefrag.c reads and writes;
-- `buf_len`, `received` and `total_len` are taken to be wide enough for every value that the code
-- gives them, and the two results and the error to be distinct. The two globals are one record. The
-- buffer behind `data` is a list of bytes, none of them for NULL; `realloc` is two arguments, whether
-- it succeeds and the bytes that it adds. The outer `none` of a function is a write or a read past the
-- end of a buffer.
pub mod Writes
pub mod Total
pub mod Whole
pub mod Datagram
pub mod Cover
pub mod AnyOrder
pub mod Reassembly
mod Tests
use pktsnare.Common.{
  ℕ, zero, suc, ◌+◌, ◌-◌, ◌*◌, ◌/◌, ◌%◌, ◌^◌, ◌≤◌, ◌<◌, ◌≡◌, refl, sym, ap, ap₂, subst, ◌∙◌, ◌≢◌,
  ◌↔◌, ◌⊎◌, inl, inr, Bool, true, false, not, ◌&&◌, ◌||◌, Option, none, some, List, [], ◌∷◌, ◌++◌,
  map, Perm, arith, min, ℕ_discrete, ltb, leb, ◌==◌, if◌then◌else◌, ==_iff, ==_refl, Bool-cases,
  Option-cases, length, get_elem?, get_or, set, modify, take, drop, replicate, All, length-append,
  length-set, length-modify, length-replicate, length-take, get_elem?-eq-get_or, get_elem?-none,
  get_elem?-some, get_elem?-set_self, get_elem?-set_ne, modify-set, modify-eq-set, take-set,
  take-set_end, take-suc, take_all, take-take_append, All-get_elem?, All-set, All-of_get_elem?,
  All-replicate, add8, add16, add32, add64, sub32, sub64, bit_and, bit_or, bit_xor,
}
use mathlib.Core.Option
use pktsnare.Table.Scan.{scan}
use pktsnare.Table.Packed.{copy_slot}

abbrev pub max_frags : ℕ
max_frags = 64

-- `IPDEFRAG_ERR`, `IPDEFRAG_COMPLETE` and `IPDEFRAG_PENDING`
pub data Status : Type 0 where
  err complete pending : Status

-- `frag_entry_t`, as src/ipdefrag.c uses it
pub record Entry : Type 0 where
  pub id : ℕ
  pub src : ℕ
  pub dst : ℕ
  pub bytes : List ℕ
  pub buf_len : ℕ
  pub received : ℕ
  pub total_len : ℕ
  pub last_seen : Bool

-- `frag_table` and `frag_count`
pub record Table : Type 0 where
  pub entries : List Entry
  pub count : ℕ

-- The three values that name a datagram
pub record Key : Type 0 where
  pub id : ℕ
  pub src : ℕ
  pub dst : ℕ

abbrev pub zeroed : Entry
zeroed = record {
  id = 0;
  src = 0;
  dst = 0;
  bytes = [];
  buf_len = 0;
  received = 0;
  total_len = 0;
  last_seen = false;
}

-- `ipdefrag_init`, and what `ipdefrag_flush` leaves
unfoldable pub init : Table
init = record { entries = replicate max_frags zeroed; count = 0 }

abbrev pub holds : Key → Entry → Bool
holds k e = e.id == k.id && (e.src == k.src && e.dst == k.dst)

unfoldable pub find_entry : Table → Key → Option ℕ
find_entry t k = scan (holds k) t.count t.entries

abbrev pub opened : Key → Entry
opened k = record zeroed { id = k.id; src = k.src; dst = k.dst }

unfoldable pub alloc_entry : Table → Key → Option ℕ × Table
alloc_entry t k =
    if leb max_frags t.count
    then (none, t)
    else (some t.count, record { entries = set t.entries t.count (opened k); count = t.count + 1 })

-- The entry of index `i` goes, and the last one takes its slot.
unfoldable pub free_entry : Table → ℕ → Table
free_entry t i =
    let freed = modify t.entries i (λ e. record e { bytes = [] }) in
    record {
      entries = if ltb i (t.count - 1) then copy_slot freed i (t.count - 1) else freed;
      count = t.count - 1;
    }

-- `realloc(e->data, end)`, which keeps what there is and adds the bytes of `fresh`
abbrev pub grown : ℕ → List ℕ → List ℕ → List ℕ
grown end_ fresh bytes = take end_ (bytes ++ (fresh ++ replicate end_ 0))

-- `memcpy(bytes + offset, payload, len)` with the first `len` bytes of `payload`
unfoldable pub copy_in : List ℕ → ℕ → List ℕ → ℕ → Option (List ℕ)
copy_in bytes offset payload len =
    if leb (offset + len) (length bytes) && leb len (length payload)
    then some (take offset bytes ++ (take len payload ++ drop (offset + len) bytes))
    else none

-- The rest of `ipdefrag_add` behind the two tests of the buffer; `end_` has 16 bits.
unfoldable pub receive : Entry → ℕ → ℕ → Bool → List ℕ → ℕ → Option (Status × Entry)
receive e offset end_ more payload len = elim (copy_in e.bytes offset payload len) [
  | none ↦ none
  | some bytes ↦
      let total = if more then e.total_len else end_ in
      let seen = if more then e.last_seen else true in
      some (
        if seen && leb total (e.received + len) then complete else pending,
        record e {
          bytes = bytes;
          received = e.received + len;
          total_len = total;
          last_seen = seen;
        },
      )
]

-- `ipdefrag_add` on the entry that it has found or made
unfoldable pub add_to_entry :
    Entry → ℕ → Bool → List ℕ → ℕ → Bool → List ℕ → Option (Status × Entry)
add_to_entry e offset more payload len allocated fresh =
    let end_ = add16 offset len in
    if not (ltb e.buf_len end_)
    then receive e offset end_ more payload len
    else if not allocated
    then some (err, e)
    else receive (record e { bytes = grown end_ fresh e.bytes; buf_len = end_ }) offset end_ more
        payload len

-- The entry of the datagram, or a new one
unfoldable pub entry_for : Table → Key → Option ℕ × Table
entry_for t k = elim (find_entry t k) [ some i ↦ (some i, t) | none ↦ alloc_entry t k ]

unfoldable pub add : Table → Key → ℕ → Bool → List ℕ → ℕ → Bool → List ℕ → Option (Status × Table)
add t k offset more payload len allocated fresh =
    let (out, t') = entry_for t k in
    elim out [
      | none ↦ some (err, t')
      | some i ↦
          elim (add_to_entry (get_or t'.entries i zeroed) offset more payload len allocated fresh) [
            | none ↦ none
            | some (status, e) ↦ some (status, record t' { entries = set t'.entries i e })
          ]
    ]

-- `none` inside is `*out_len` left as it was.
unfoldable pub get : Table → Key → ℕ → Option (Status × Option (List ℕ) × Table)
get t k limit = elim (find_entry t k) [
  | none ↦ some (err, none, t)
  | some i ↦
      let e = get_or t.entries i zeroed in
      if not e.last_seen
      then some (err, none, t)
      else if ltb limit e.total_len
      then some (err, none, t)
      else if ltb (length e.bytes) e.total_len
      then none
      else some (complete, some (take e.total_len e.bytes), free_entry t i)
]

abbrev pub flush : Table → Table
flush t = init
