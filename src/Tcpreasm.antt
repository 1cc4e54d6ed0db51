-- ===== src/Tcpreasm.antt =====
-- src/tcpreasm.c and src/tcpreasm.h: TCP streams and their segments, kept in the order of their
-- sequence numbers. A stream is named by its index in `ctx->streams`, the linked list of its segments
-- is a List, and `malloc` is a Boolean argument that says whether it succeeds. Pointers are there (no
-- NULL).
pub mod Segments
pub mod Streams
pub mod Calls
mod Tests
use pktsnare.Common.{
  ℕ, ◌+◌, ◌-◌, Bool, true, false, not, ◌&&◌, Option, none, some, List, [], ◌∷◌, ◌++◌, ltb, leb,
  ◌==◌, if◌then◌else◌, length, get_or, set, modify, take, replicate, add64, sub32,
}
use pktsnare.Common.Int.{ℤ, success, failure}
use pktsnare.Table.Scan.{scan}

abbrev pub max_streams : ℕ
max_streams = 64

abbrev pub max_seg_buf : ℕ
max_seg_buf = 16

abbrev pub timeout_sec : ℕ
timeout_sec = 30

-- `tcpreasm_seg_t`; of `data` the first `len` bytes.
pub record Segment : Type 0 where
  pub seq : ℕ
  pub len : ℕ
  pub bytes : List ℕ

pub record Stream : Type 0 where
  pub src_ip : ℕ
  pub dst_ip : ℕ
  pub src_port : ℕ
  pub dst_port : ℕ
  pub next_seq : ℕ
  pub last_seen : ℕ
  pub seg_count : ℕ
  pub segs : List Segment
  pub in_use : Bool

pub record Ctx : Type 0 where
  pub streams : List Stream
  pub stream_count : ℕ
  pub reassembled : ℕ
  pub dropped_ooo : ℕ
  pub expired : ℕ

-- What `memset` leaves.
abbrev pub zeroed : Stream
zeroed = record {
  src_ip = 0;
  dst_ip = 0;
  src_port = 0;
  dst_port = 0;
  next_seq = 0;
  last_seen = 0;
  seg_count = 0;
  segs = [];
  in_use = false;
}

unfoldable pub init : Ctx
init = record {
  streams = replicate max_streams zeroed;
  stream_count = 0;
  reassembled = 0;
  dropped_ooo = 0;
  expired = 0;
}

-- The four numbers that a stream is looked up by
pub record Flow : Type 0 where
  pub src_ip : ℕ
  pub dst_ip : ℕ
  pub src_port : ℕ
  pub dst_port : ℕ

abbrev pub is_stream : Flow → Stream → Bool
is_stream f s =
    s.in_use
    && (s.src_ip == f.src_ip
        && s.dst_ip == f.dst_ip
        && s.src_port == f.src_port
        && s.dst_port == f.dst_port)

abbrev pub opened : Flow → Stream
opened f = record zeroed {
  src_ip = f.src_ip;
  dst_ip = f.dst_ip;
  src_port = f.src_port;
  dst_port = f.dst_port;
  in_use = true;
}

-- The index of the stream that is returned, `none` for NULL
unfoldable pub get_stream : Ctx → Flow → Option ℕ × Ctx
get_stream c f = elim (scan (is_stream f) max_streams c.streams) [
  | some i ↦ (some i, c)
  | none ↦ elim (scan (λ s. not s.in_use) max_streams c.streams) [
    | none ↦ (none, c)
    | some i ↦ (
      some i,
      record c { streams = set c.streams i (opened f); stream_count = c.stream_count + 1 },
    )
  ]
]

-- The walk to the first segment whose number is not smaller, and the insertion there
unfoldable pub insert_segment : Segment → List Segment → List Segment
insert_segment seg [] = seg ∷ []
insert_segment seg (s ∷ ss) = if ltb s.seq seg.seq then s ∷ insert_segment seg ss else seg ∷ s ∷ ss

abbrev pub cut : ℕ → ℕ
cut len = if ltb 1500 len then 1500 else len

unfoldable pub add_to_stream : Stream → ℕ → List ℕ → ℕ → Stream
add_to_stream s seq bytes len =
    let seg : Segment = record { seq = seq; len = cut len; bytes = take (cut len) bytes } in
    record s { segs = insert_segment seg s.segs; seg_count = s.seg_count + 1 }

unfoldable pub add_segment : Ctx → ℕ → ℕ → List ℕ → ℕ → Bool → ℤ × Ctx
unfolding add_to_stream
add_segment c i seq bytes len allocated =
    if len == 0
    then (failure, c)
    else if leb max_seg_buf (get_or c.streams i zeroed).seg_count
    then (failure, record c { dropped_ooo = add64 c.dropped_ooo 1 })
    else if allocated
    then (success, record c { streams = modify c.streams i (λ s. add_to_stream s seq bytes len) })
    else (failure, c)

-- The loop of `tcpreasm_get_data`; `out` is what has been copied.
unfoldable pub copy_segments : List Segment → ℕ → List ℕ → List ℕ
copy_segments [] buf_len out = out
copy_segments (s ∷ ss) buf_len out =
    if ltb buf_len (length out + s.len)
    then out
    else copy_segments ss buf_len (out ++ take s.len s.bytes)

unfoldable pub get_data : Stream → ℕ → ℤ × List ℕ
get_data s buf_len =
    let out = copy_segments s.segs buf_len [] in (if length out == 0 then failure else success, out)

unfoldable pub free_stream : Stream → Stream
free_stream s = record s { segs = []; seg_count = 0; in_use = false }

-- `now - s->last_seen >= TCPREASM_TIMEOUT_SEC` on `uint32_t`
abbrev pub is_old : ℕ → Stream → Bool
is_old now s = s.in_use && leb timeout_sec (sub32 now s.last_seen)

-- The loop of `tcpreasm_expire`, with `stream_count` and `expired`
unfoldable pub expire_from : ℕ → List Stream → ℕ → ℕ → List Stream × ℕ × ℕ
expire_from now [] count expired = ([], count, expired)
expire_from now (s ∷ ss) count expired =
    let old = is_old now s in
    let (rest, count', expired') =
      expire_from now ss (if old then count - 1 else count)
        (if old then add64 expired 1 else expired) in
    ((if old then free_stream s else s) ∷ rest, count', expired')

unfoldable pub expire : Ctx → ℕ → Ctx
expire c now =
    let (streams, count, expired) = expire_from now c.streams c.stream_count c.expired in
    record c { streams = streams; stream_count = count; expired = expired }
