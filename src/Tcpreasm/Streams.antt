-- ===== src/Tcpreasm/Streams.antt =====
-- The stream table of src/tcpreasm.c: its counter, its expiry, and the field `last_seen`.
use pktsnare.Common.{
  ℕ, zero, suc, ◌+◌, ◌-◌, ◌%◌, ◌^◌, ◌≤◌, ◌<◌, ◌≡◌, refl, sym, ap, ◌∙◌, inl, inr, Bool, true, false,
  not, ◌&&◌, List, [], ◌∷◌, map, arith, leb, ◌==◌, if◌then◌else◌, Bool-cases, Option-cases, length,
  get_or, modify, All, length-set, length-modify, All-set, All-replicate, add64, sub32,
}
use pktsnare.Common.{length-map}
use pktsnare.Common.Filter.{keep, count_if}
use pktsnare.Table.Scan.{scan, scan-Finds}
use pktsnare.Table.Slots.{keep-clear-dead, count_if-clear-dead, count_if-set_new}
use pktsnare.Tcpreasm.{
  Ctx, Stream, Flow, zeroed, init, is_stream, opened, get_stream, add_segment, free_stream, is_old,
  expire_from, expire, max_streams,
}

abbrev pub in_use : Stream → Bool
in_use s = s.in_use

-- `stream_count` is the number of streams in use, and none has a time.
pub record IsValid (c : Ctx) : Type 0 where
  pub space : length c.streams ≡ max_streams
  pub counted : c.stream_count ≡ count_if in_use c.streams
  pub timeless : All (λ s. s.last_seen ≡ 0) c.streams

pub init-IsValid : IsValid init
unfolding init
init-IsValid = record {
  space = refl;
  counted = refl;
  timeless = All-replicate (λ s. s.last_seen ≡ 0) max_streams zeroed refl;
}

free_slot : (s : Stream) → not s.in_use ≡ true → in_use s ≡ false
free_slot s h = ground arith

-- The slot that a new stream is put into was free.
pub get_stream-IsValid : (c : Ctx) (f : Flow) → IsValid c → IsValid (get_stream c f).1
unfolding get_stream
get_stream-IsValid c f v = elim (Option-cases (scan (is_stream f) max_streams c.streams)) [
  | inr (i, e) ↦ rw (e, get_stream) v
  | inl e ↦ elim (Option-cases (scan (λ s. not s.in_use) max_streams c.streams)) [
    | inl full ↦ rw (e, get_stream) (rw (full, get_stream) v)
    | inr (i, free) ↦
        let (s, first) = rw free at (scan-Finds (λ s. not s.in_use) max_streams c.streams) in
        rw (e, get_stream)
          (rw (free, get_stream)
            (record {
              space = length-set c.streams i (opened f) ∙ v.space;
              counted =
                  ap (λ n. n + 1) v.counted
                  ∙ sym (
                      count_if-set_new in_use c.streams i (opened f) first.at
                        (free_slot s first.hit) refl);
              timeless = All-set (λ s. s.last_seen ≡ 0) c.streams i (opened f) v.timeless refl;
            }))
  ]
]

modify_same :
    (ss : List Stream) (i : ℕ) (f : Stream → Stream)
    → ((s : Stream) → (f s).in_use ≡ s.in_use)
    → count_if in_use (modify ss i f) ≡ count_if in_use ss
modify_same [] i f h = refl
modify_same (s ∷ ss) zero f h = ground (arith, h s)
modify_same (s ∷ ss) (suc i) f h = ground (arith, modify_same ss i f h)

modify_timeless :
    (ss : List Stream) (i : ℕ) (f : Stream → Stream)
    → ((s : Stream) → (f s).last_seen ≡ s.last_seen)
    → All (λ s. s.last_seen ≡ 0) ss
    → All (λ s. s.last_seen ≡ 0) (modify ss i f)
modify_timeless [] i f h a = tt
modify_timeless (s ∷ ss) zero f h a = (h s ∙ a.0, a.1)
modify_timeless (s ∷ ss) (suc i) f h a = (a.0, modify_timeless ss i f h a.1)

pub add_segment-IsValid :
    (c : Ctx) (i seq : ℕ) (bytes : List ℕ) (len : ℕ) (allocated : Bool)
    → IsValid c
    → IsValid (add_segment c i seq bytes len allocated).1
unfolding add_segment
add_segment-IsValid c i seq bytes len allocated v = elim (Bool-cases (len == 0)) [
  | inl nothing ↦ rw nothing v
  | inr some_len ↦ elim (Bool-cases (leb 16 (get_or c.streams i zeroed).seg_count)) [
    | inl full ↦
        rw (some_len, full) (record { space = v.space; counted = v.counted; timeless = v.timeless })
    | inr room ↦ elim (Bool-cases allocated) [
      | inl ok ↦
          rw (some_len, room, ok)
            (record {
              space = length-modify c.streams i _ ∙ v.space;
              counted = v.counted ∙ sym (modify_same c.streams i _ λ s. refl);
              timeless = modify_timeless c.streams i _ (λ s. refl) v.timeless;
            })
      | inr fail ↦ rw (some_len, room, fail) v
    ]
  ]
]

module _ (now : ℕ) where
  abbrev free_old : Stream → Stream
  free_old s = if is_old now s then free_stream s else s

  expire_from_lem :
      (ss : List Stream) (count expired : ℕ)
      → expired < 2 ^ 64
      → expire_from now ss count expired ≡ (
        map free_old ss,
        count - count_if (is_old now) ss,
        (expired + count_if (is_old now) ss) % 2 ^ 64,
      )
  unfolding expire_from
  expire_from_lem [] count expired h = ground arith
  expire_from_lem (s ∷ ss) count expired h = elim (Bool-cases (is_old now s)) [
    | inl old ↦
        rw (old, expire_from_lem ss (count - 1) (add64 expired 1) (omega arith)) (ground arith)
    | inr young ↦ rw (young, expire_from_lem ss count expired h) refl
  ]

  freed : (s : Stream) → in_use (free_stream s) ≡ false
  unfolding free_stream
  freed s = refl

  old_used : (s : Stream) → is_old now s ≡ true → in_use s ≡ true
  old_used s h = ground arith

  free_old_timeless :
      (ss : List Stream)
      → All (λ s. s.last_seen ≡ 0) ss
      → All (λ s. s.last_seen ≡ 0) (map free_old ss)
  unfolding free_stream
  free_old_timeless [] a = tt
  free_old_timeless (s ∷ ss) a = (ground (arith, a.0), free_old_timeless ss a.1)

  split :
      (ss : List Stream)
      → count_if in_use (map free_old ss) + count_if (is_old now) ss ≡ count_if in_use ss
  split ss = count_if-clear-dead (is_old now) free_stream in_use freed old_used ss

  -- In a valid context, with the 64-bit counter of expired streams in range, expiry frees the
  -- streams whose time has come and no others, counts them, and keeps the context valid.
  pub expire-streams :
      (c : Ctx)
      → IsValid c
      → c.expired < 2 ^ 64
      → let c' = expire c now in
        IsValid c'
        × (keep in_use c'.streams ≡ keep (λ s. in_use s && not (is_old now s)) c.streams)
        × (c'.expired ≡ (c.expired + count_if (is_old now) c.streams) % 2 ^ 64)
  unfolding expire
  expire-streams c v h = rw (expire_from_lem c.streams c.stream_count c.expired h) (
    record {
      space = length-map free_old c.streams ∙ v.space;
      counted = omega (arith, v.counted, split c.streams);
      timeless = free_old_timeless c.streams v.timeless;
    },
    keep-clear-dead (is_old now) free_stream in_use freed c.streams,
    refl,
  )

  All-old :
      (ss : List Stream)
      → 30 ≤ now
      → now < 2 ^ 32
      → All (λ s. s.last_seen ≡ 0) ss
      → count_if (is_old now) ss ≡ count_if in_use ss
  All-old [] h b a = refl
  All-old (s ∷ ss) h b a =
      let e : leb 30 (sub32 now s.last_seen) ≡ true = ground (arith, a.0) in
      ground (arith, e, All-old ss h b a.1)

  -- In a valid context, so where no stream has a time, with the 64-bit counter of expired streams in
  -- range and the 32-bit clock at 30 or later, no stream survives an expiry.
  pub expire_all :
      (c : Ctx)
      → IsValid c
      → c.expired < 2 ^ 64
      → 30 ≤ now
      → now < 2 ^ 32
      → let c' = expire c now in
        (count_if in_use c'.streams ≡ 0)
        × (c'.stream_count ≡ 0)
        × (c'.expired ≡ (c.expired + c.stream_count) % 2 ^ 64)
  unfolding expire
  expire_all c v h lo hi =
      let every = All-old c.streams lo hi v.timeless in
      rw (expire_from_lem c.streams c.stream_count c.expired h) (
        omega (arith, split c.streams, every),
        omega (arith, v.counted, every),
        ap (λ n. (c.expired + n) % 2 ^ 64) (every ∙ sym v.counted),
      )
