-- ===== src/Tcpreasm/Segments.antt =====
-- The segments of a stream of src/tcpreasm.c: their order, their number, and what is read from them.
use pktsnare.Common.{
  ℕ, ◌+◌, ◌≤◌, ◌<◌, ◌≡◌, refl, sym, ap, ◌∙◌, ◌↔◌, inl, inr, List, [], ◌∷◌, ◌++◌, Perm, arith, min,
  ltb, ◌==◌, if◌then◌else◌, Bool-cases, length, take, All, length-append, length-take, take_all,
}
use mathlib.Core.List.Perm
use mathlib.Core.List.{append_assoc, append-nil}
use pktsnare.Common.Int.{success, failure}
use pktsnare.Tcpreasm.{Segment, Stream, cut, insert_segment, add_to_stream, copy_segments, get_data}

abbrev pub IsSorted : List Segment → Type 0
IsSorted [] = Unit
IsSorted (s ∷ ss) = All (λ t. s.seq ≤ t.seq) ss × IsSorted ss

-- Every segment carries as many bytes as it says, 1500 at most.
abbrev pub IsFull : Segment → Type 0
IsFull s = (length s.bytes ≡ s.len) × (s.len ≤ 1500)

pub record IsValid (s : Stream) : Type 0 where
  pub counted : s.seg_count ≡ length s.segs
  pub sorted : IsSorted s.segs
  pub full : All IsFull s.segs

insert_segment-le :
    (n : ℕ) (seg : Segment) (ss : List Segment)
    → n ≤ seg.seq
    → All (λ t. n ≤ t.seq) ss
    → All (λ t. n ≤ t.seq) (insert_segment seg ss)
unfolding insert_segment
insert_segment-le n seg [] h a = (h, tt)
insert_segment-le n seg (s ∷ ss) h a = elim (Bool-cases (ltb s.seq seg.seq)) [
  | inl less ↦ rw less (a.0, insert_segment-le n seg ss h a.1)
  | inr ge ↦ rw ge (h, (a.0, a.1))
]

le-All : (n m : ℕ) (ss : List Segment) → n ≤ m → All (λ t. m ≤ t.seq) ss → All (λ t. n ≤ t.seq) ss
le-All n m [] h a = tt
le-All n m (s ∷ ss) h a = (omega (arith, a.0), le-All n m ss h a.1)

insert_segment-IsSorted :
    (seg : Segment) (ss : List Segment) → IsSorted ss → IsSorted (insert_segment seg ss)
unfolding insert_segment
insert_segment-IsSorted seg [] h = (tt, tt)
insert_segment-IsSorted seg (s ∷ ss) h = elim (Bool-cases (ltb s.seq seg.seq)) [
  | inl less ↦
      rw less
        (insert_segment-le s.seq seg ss (ground arith) h.0, insert_segment-IsSorted seg ss h.1)
  | inr ge ↦ rw ge ((ground arith, le-All seg.seq s.seq ss (ground arith) h.0), h)
]

pub insert_segment-perm :
    (seg : Segment) (ss : List Segment) → Perm (insert_segment seg ss) (seg ∷ ss)
unfolding insert_segment
insert_segment-perm seg [] = Perm.rfl
insert_segment-perm seg (s ∷ ss) = elim (Bool-cases (ltb s.seq seg.seq)) [
  | inl less ↦ rw less (Perm.trans (Perm.cons s (insert_segment-perm seg ss)) (Perm.swap seg s ss))
  | inr ge ↦ rw ge Perm.rfl
]

length-insert_segment :
    (seg : Segment) (ss : List Segment) → length (insert_segment seg ss) ≡ length ss + 1
unfolding insert_segment
length-insert_segment seg [] = omega arith
length-insert_segment seg (s ∷ ss) = ground (arith, length-insert_segment seg ss)

insert_segment-IsFull :
    (seg : Segment) (ss : List Segment)
    → IsFull seg
    → All IsFull ss
    → All IsFull (insert_segment seg ss)
unfolding insert_segment
insert_segment-IsFull seg [] h a = (h, tt)
insert_segment-IsFull seg (s ∷ ss) h a = elim (Bool-cases (ltb s.seq seg.seq)) [
  | inl less ↦ rw less (a.0, insert_segment-IsFull seg ss h a.1)
  | inr ge ↦ rw ge (h, a)
]

cut-eq-min : (len : ℕ) → cut len ≡ min len 1500
cut-eq-min len = ground arith

-- In a valid stream, a segment whose buffer holds its bytes is added, cut to 1500 bytes, to those
-- of the stream. They stay in the order of their sequence numbers, counted, and whole.
pub add_to_stream_lem :
    (s : Stream) (seq : ℕ) (bytes : List ℕ) (len : ℕ)
    → IsValid s
    → len ≤ length bytes
    → let s' = add_to_stream s seq bytes len in
      IsValid s'
      × Perm s'.segs
          (record { seq = seq; len = min len 1500; bytes = take (min len 1500) bytes } ∷ s.segs)
unfolding add_to_stream
add_to_stream_lem s seq bytes len v h = rw (cut-eq-min len) (
  record {
    counted = omega (arith, v.counted, length-insert_segment seg s.segs);
    sorted = insert_segment-IsSorted seg s.segs v.sorted;
    full =
        insert_segment-IsFull seg s.segs
          (omega (arith, length-take (min len 1500) bytes), omega arith) v.full;
  },
  insert_segment-perm seg s.segs,
)
  where
    seg : Segment
    seg = record { seq = seq; len = min len 1500; bytes = take (min len 1500) bytes }

-- The bytes of the segments, one after the other
abbrev pub payload : List Segment → List ℕ
payload [] = []
payload (s ∷ ss) = s.bytes ++ payload ss

-- The segments that do not fit begin with one that is too long for the room left.
abbrev pub TooLong : ℕ → ℕ → List Segment → Type 0
TooLong buf_len used [] = Unit
TooLong buf_len used (s ∷ ss) = buf_len < used + s.len

-- What the loop copies behind `out`, out of the segments `ss`.
abbrev pub Copies : ℕ → List ℕ → List Segment → List ℕ → Type 0
Copies buf_len out ss result =
    (front : List Segment) × (back : List Segment) × (ss ≡ front ++ back)
    × (result ≡ out ++ payload front)
    × (length result ≤ buf_len)
    × TooLong buf_len (length result) back

copy_segments-Copies :
    (ss : List Segment) (buf_len : ℕ) (out : List ℕ)
    → All IsFull ss
    → length out ≤ buf_len
    → Copies buf_len out ss (copy_segments ss buf_len out)
unfolding copy_segments
copy_segments-Copies [] buf_len out a h = ([], [], refl, sym (append-nil out), h, tt)
copy_segments-Copies (s ∷ ss) buf_len out a h =
    elim (Bool-cases (ltb buf_len (length out + s.len))) [
      | inl long ↦ rw long ([], s ∷ ss, refl, sym (append-nil out), h, ground arith)
      | inr fits ↦
          let whole : take s.len s.bytes ≡ s.bytes =
            take_all s.bytes s.len (omega (arith, a.0.0)) in
          let (front, back, e, r, b, t) =
            copy_segments-Copies ss buf_len (out ++ take s.len s.bytes) a.1
              (rw whole (ground (arith, length-append out s.bytes, a.0.0))) in
          rw fits (
            s ∷ front,
            back,
            ap (◌∷◌ s) e,
            r ∙ rw whole (append_assoc out s.bytes (payload front)),
            b,
            t,
          )
    ]

-- Of a valid stream, `tcpreasm_get_data` copies the payload of the longest run of leading segments
-- that fits the buffer, and fails exactly where that is empty.
pub get_data_lem :
    (s : Stream) (buf_len : ℕ)
    → IsValid s
    → let (status, out) = get_data s buf_len in
      Copies buf_len [] s.segs out × ((status ≡ failure) ↔ (out ≡ []))
unfolding get_data
get_data_lem s buf_len v = (
  copy_segments-Copies s.segs buf_len [] v.full (omega arith),
  empty (copy_segments s.segs buf_len []),
)
  where
    empty : (out : List ℕ) → ((if length out == 0 then failure else success) ≡ failure) ↔ (out ≡ [])
    empty [] = (λ e. refl, λ e. refl)
    empty (x ∷ xs) = (λ e. absurd (ground arith), λ e. absurd (cc))
