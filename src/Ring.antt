-- ===== src/Ring.antt =====
-- src/ring.c: the packet ring, which overwrites its oldest packet when it is full.
-- A function that updates `*rb` returns the new ring beside its status. The ring and the buffers
-- are there (no NULL), and `calloc` is a Boolean argument that says whether it succeeds.
pub mod Queue
pub mod Invariant
pub mod Window
pub mod Refines
pub mod Calls
mod Tests
use pktsnare.Common.{
  ℕ, ◌+◌, ◌-◌, ◌%◌, ◌^◌, Bool, ◌&&◌, ◌||◌, List, [], ◌∷◌, ◌++◌, Option, none, some, set, get_or,
  take, drop, replicate, add64, ltb, ◌==◌, if◌then◌else◌,
}
use pktsnare.Common.Int.{ℤ, pos, success, failure}

abbrev pub default_capacity : ℕ
default_capacity = 64

abbrev pub max_pkt_size : ℕ
max_pkt_size = 2048

-- `ring_entry_t`; `data` holds 2048 bytes, of which the first `len` are the packet.
pub record Entry : Type 0 where
  pub bytes : List ℕ
  pub len : ℕ
  pub timestamp_us : ℕ

-- `ring_buf_t`
pub record Ring : Type 0 where
  pub entries : List Entry
  pub capacity : ℕ
  pub head : ℕ
  pub tail : ℕ
  pub count : ℕ
  pub dropped : ℕ

-- What `calloc` puts into a slot. It also stands for a read past the array, which never happens
-- in a valid ring.
unfoldable pub zeroed : Entry
zeroed = record { bytes = replicate max_pkt_size 0; len = 0; timestamp_us = 0 }

unfoldable pub create : ℕ → Bool → Bool → Option Ring
create capacity struct_allocated entries_allocated =
    let cap = if capacity == 0 then default_capacity else capacity in
    if struct_allocated && entries_allocated
    then some (record {
      entries = replicate cap zeroed;
      capacity = cap;
      head = 0;
      tail = 0;
      count = 0;
      dropped = 0;
    })
    else none

-- `memcpy(slot->data, data, len)` and the two assignments below it: the bytes behind `len` stay.
unfoldable pub fill : Entry → List ℕ → ℕ → ℕ → Entry
fill slot packet len ts = record {
  bytes = take len packet ++ drop len slot.bytes;
  len = len;
  timestamp_us = ts;
}

-- The test `rb->count == rb->capacity` and its two branches.
unfoldable pub make_room : Ring → Ring
make_room r =
    if r.count == r.capacity
    then record r { tail = add64 r.tail 1 % r.capacity; dropped = add64 r.dropped 1 }
    else record r { count = add64 r.count 1 }

-- The write to the slot at `head`, and the step of `head`.
unfoldable pub store : Ring → List ℕ → ℕ → ℕ → Ring
store r packet len ts = record r {
  entries = set r.entries r.head (fill (get_or r.entries r.head zeroed) packet len ts);
  head = add64 r.head 1 % r.capacity;
}

unfoldable pub push : Ring → List ℕ → ℕ → ℕ → ℤ × Ring
unfolding make_room store
push r packet len ts =
    if len == 0 || ltb max_pkt_size len
    then (failure, r)
    else (success, store (make_room r) packet len ts)

-- `none` is `*dst` left as it was.
unfoldable pub pop : Ring → ℤ × Option Entry × Ring
pop r = if r.count == 0 then (pos 1, none, r) else (
  success,
  some (get_or r.entries r.tail zeroed),
  record r { tail = add64 r.tail 1 % r.capacity; count = r.count - 1 },
)

unfoldable pub peek : Ring → Option Entry
peek r = if r.count == 0 then none else some (get_or r.entries r.tail zeroed)
