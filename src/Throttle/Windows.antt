-- ===== src/Throttle/Windows.antt =====
-- What src/throttle.c lets through, against a tally of it that is kept apart from the code.
use pktsnare.Common.{
  ℕ, ◌+◌, ◌-◌, ◌/◌, ◌%◌, ◌^◌, ◌≤◌, ◌<◌, ◌≡◌, refl, ap, ◌∙◌, ◌⊎◌, inl, inr, Bool, true, false, not,
  List, [], ◌∷◌, arith, ltb, leb, ◌==◌, if◌then◌else◌, Bool-cases, add32, add64,
}
use pktsnare.Common.Filter.{count_if}
use pktsnare.Throttle.Clock.{nanos, IsTime, is_over, elapsed_ms-is_over}
use pktsnare.Throttle.{Time, Throttle, limit, slide, admit, check, elapsed_ms, init}

abbrev pub Arrival : Type 0
Arrival = Time × ℕ

-- The packets that arrive, in order, and which of them are let through.
unfoldable pub run : Throttle → List Arrival → List Bool × Throttle
run t [] = ([], t)
run t ((now, len) ∷ rest) =
    let (allowed, t') = check now t len in
    let (flags, last) = run t' rest in (allowed ∷ flags, last)

-- What has been let through since a window began
pub record Tally : Type 0 where
  pub start : Time
  pub packets : ℕ
  pub bytes : ℕ

-- A window is over once 100 ms have gone by, as `is_over` has it.
abbrev pub turned : Time → Tally → Tally
turned now w = if is_over w.start now then record { start = now; packets = 0; bytes = 0 } else w

abbrev pub counted : ℕ → Bool → Tally → Tally
counted len passed w =
    if passed then record w { packets = w.packets + 1; bytes = w.bytes + len } else w

-- A tenth of the packets of a second; without a limit, what 64 bits can count.
abbrev pub share : ℕ → ℕ
share max = if max == 0 then 2 ^ 64 - 1 else max / 10

abbrev pub Fits : ℕ → ℕ → Tally → Type 0
Fits pps bps w = (w.packets ≤ share pps) × ((bps ≡ 0) ⊎ (w.bytes ≤ bps / 10))

-- One packet more, or these bytes, would be too much.
abbrev pub IsFull : ℕ → ℕ → ℕ → Tally → Type 0
IsFull pps bps len w = (share pps ≤ w.packets) ⊎ ((0 < bps) × (bps / 10 < w.bytes + len))

-- Of each packet that arrives, whether it passed: the window holds what has passed in it, and only
-- what would be too much did not pass.
abbrev pub AreLimited : ℕ → ℕ → Tally → List Arrival → List Bool → Type 0
AreLimited pps bps w [] [] = Unit
AreLimited pps bps w [] (f ∷ fs) = ⊥
AreLimited pps bps w (a ∷ rest) [] = ⊥
AreLimited pps bps w ((now, len) ∷ rest) (f ∷ fs) =
    let here = turned now w in
    let next = counted len f here in
    Fits pps bps next × ((f ≡ true) ⊎ IsFull pps bps len here) × AreLimited pps bps next rest fs

-- The clock does not go back from one arrival to the next, and lengths have 32 bits.
abbrev pub AreOrdered : Time → List Arrival → Type 0
AreOrdered last [] = Unit
AreOrdered last ((now, len) ∷ rest) =
    IsTime now × (nanos last ≤ nanos now) × (len < 2 ^ 32) × AreOrdered now rest

-- The throttle and the tally agree; bytes without a limit may wrap.
record Agrees (pps bps : ℕ) (t : Throttle) (w : Tally) : Type 0 where
  pps_same : t.max_pps ≡ pps
  bps_same : t.max_bps ≡ bps
  start_same : t.window_start ≡ w.start
  packets_same : t.pkt_count ≡ w.packets
  bytes_same : t.byte_count ≡ w.bytes % 2 ^ 64
  fits : Fits pps bps w

limit_share : (max : ℕ) → max < 2 ^ 32 → limit max ≡ share max
unfolding limit
limit_share max h = ground arith

module _ (pps bps : ℕ) (small_pps : pps < 2 ^ 32) (small_bps : bps < 2 ^ 32) where
  slide-Agrees :
      (now : Time) (t : Throttle) (w : Tally)
      → IsTime w.start
      → IsTime now
      → nanos w.start ≤ nanos now
      → Agrees pps bps t w
      → Agrees pps bps (slide now t) (turned now w)
  unfolding slide
  slide-Agrees now t w s n later a =
      let test : leb 100 (elapsed_ms t.window_start now) ≡ is_over w.start now =
        ap (λ (start : Time). leb 100 (elapsed_ms start now)) a.start_same
        ∙ elapsed_ms-is_over w.start now s n later in
      elim (Bool-cases (is_over w.start now)) [
        | inl over ↦
            rw (test, over)
              (record {
                pps_same = a.pps_same;
                bps_same = a.bps_same;
                start_same = refl;
                packets_same = refl;
                bytes_same = refl;
                fits = (omega arith, inr (omega arith));
              })
        | inr inside ↦ rw (test, inside) a
      ]

  -- The window that a packet falls into began before it.
  turned-start :
      (now : Time) (w : Tally)
      → IsTime w.start
      → IsTime now
      → nanos w.start ≤ nanos now
      → IsTime (turned now w).start × (nanos (turned now w).start ≤ nanos now)
  turned-start now w s n later = elim (Bool-cases (is_over w.start now)) [
    | inl over ↦ rw over (n, omega arith)
    | inr inside ↦ rw inside (s, later)
  ]

  counted-start : (len : ℕ) (passed : Bool) (w : Tally) → (counted len passed w).start ≡ w.start
  counted-start len true w = refl
  counted-start len false w = refl

  -- Bytes that fit do not wrap, and the test of the code is that of the tally.
  bytes_test :
      (len : ℕ) (t : Throttle) (w : Tally)
      → len < 2 ^ 32
      → Agrees pps bps t w
      → ((ltb (limit t.max_bps) (add64 t.byte_count len) ≡ true)
          × (0 < bps)
          × (bps / 10 < w.bytes + len))
        ⊎ ((ltb (limit t.max_bps) (add64 t.byte_count len) ≡ false)
            × ((bps ≡ 0) ⊎ (w.bytes + len ≤ bps / 10)))
  bytes_test len t w small a =
      let e = limit_share t.max_bps (omega (arith, a.bps_same)) in
      let b = a.bps_same in
      elim (Bool-cases (ltb (limit t.max_bps) (add64 t.byte_count len))) [
        | inl much ↦ elim a.fits.1 [
          | inl free ↦ absurd (ground (arith, e, b, much, free))
          | inr low ↦
              inl (much, ground (arith, e, b, much), ground (arith, e, b, much, low, a.bytes_same))
        ]
        | inr few ↦ elim a.fits.1 [
          | inl free ↦ inr (few, inl free)
          | inr low ↦ inr (few, ground (arith, e, b, few, low, a.bytes_same))
        ]
      ]

  dropped-Agrees :
      (n : ℕ) (t : Throttle) (w : Tally)
      → Agrees pps bps t w
      → Agrees pps bps (record t { dropped_pkts = n }) w
  dropped-Agrees n t w a = record {
    pps_same = a.pps_same;
    bps_same = a.bps_same;
    start_same = a.start_same;
    packets_same = a.packets_same;
    bytes_same = a.bytes_same;
    fits = a.fits;
  }

  -- The flag of `admit` is right, and the tally keeps step.
  admit-Agrees :
      (len : ℕ) (t : Throttle) (w : Tally)
      → len < 2 ^ 32
      → Agrees pps bps t w
      → let (passed, t') = admit len t in
        Agrees pps bps t' (counted len passed w)
        × ((passed ≡ true) ⊎ IsFull pps bps len w)
        × (t'.dropped_pkts ≡ (if passed then t.dropped_pkts else add32 t.dropped_pkts 1))
  unfolding admit
  admit-Agrees len t w small a =
      let e = limit_share t.max_pps (omega (arith, a.pps_same)) in
      let share_same : share t.max_pps ≡ share pps = ap share a.pps_same in
      elim (Bool-cases (leb (limit t.max_pps) t.pkt_count)) [
        | inl full ↦ rw full (
          dropped-Agrees _ t w a,
          inr (inl (ground (arith, e, share_same, a.packets_same))),
          refl,
        )
        | inr room ↦ elim (bytes_test len t w small a) [
          | inl (much, some_limit, over) ↦
              rw (room, much) (dropped-Agrees _ t w a, inr (inr (some_limit, over)), refl)
          | inr (few, fit) ↦
              rw (room, few)
                (
                  record {
                    pps_same = a.pps_same;
                    bps_same = a.bps_same;
                    start_same = a.start_same;
                    packets_same =
                        ground (
                          arith, e, share_same, a.packets_same, a.fits, small_pps, a.pps_same, room,
                        );
                    bytes_same = omega (arith, a.bytes_same);
                    fits = (ground (arith, e, share_same, a.packets_same, room), fit);
                  },
                  inl refl,
                  refl,
                )
        ]
      ]

  dropped-slide : (now : Time) (t : Throttle) → (slide now t).dropped_pkts ≡ t.dropped_pkts
  unfolding slide
  dropped-slide now t = ground arith

  run-Agrees :
      (t : Throttle) (w : Tally) (last : Time) (arrivals : List Arrival)
      → IsTime w.start
      → nanos w.start ≤ nanos last
      → AreOrdered last arrivals
      → Agrees pps bps t w
      → t.dropped_pkts < 2 ^ 32
      → let (flags, t') = run t arrivals in
        AreLimited pps bps w arrivals flags
        × (t'.dropped_pkts ≡ (t.dropped_pkts + count_if not flags) % 2 ^ 32)
  unfolding run check
  run-Agrees t w last [] s l o a d = (tt, omega arith)
  run-Agrees t w last ((now, len) ∷ rest) s l o a d =
      let later : nanos w.start ≤ nanos now = omega (arith, l, o.1) in
      let turn = slide-Agrees now t w s o.0 later a in
      let here = turned-start now w s o.0 later in
      let step = admit-Agrees len (slide now t) (turned now w) o.2 turn in
      let (passed, t') = admit len (slide now t) in
      let kept = counted-start len passed (turned now w) in
      let same = dropped-slide now t in
      let ih =
        run-Agrees t' (counted len passed (turned now w)) now rest (rw kept here.0) (rw kept here.1)
          o.3 step.0 (ground (arith, d, step.2, same)) in
      ((step.0.fits, step.1, ih.0), ground (arith, d, ih.1, step.2, same))

-- From a fresh throttle with limits below 2^32, whatever packets of less than 2^32 bytes arrive, at
-- times (below 2^48 seconds) that do not go back: the first window starts with the throttle, and a
-- new one with the first packet that arrives when the last is over by `is_over` (after 100 ms, or
-- after more than 99 where the nanoseconds of the second are fewer); in each, the packets that pass
-- are at most a tenth of the packet limit (2^64-1 where it is 0), and their bytes at most a tenth of
-- the byte limit, unless it is 0; a packet is refused only if its window has that many packets, or
-- would have more bytes; and the refused are counted modulo 2^32.
pub run-init :
    (start : Time) (pps bps : ℕ) (arrivals : List Arrival)
    → pps < 2 ^ 32
    → bps < 2 ^ 32
    → IsTime start
    → AreOrdered start arrivals
    → let (flags, t) = run (init start pps bps) arrivals in
      AreLimited pps bps (record { start = start; packets = 0; bytes = 0 }) arrivals flags
      × (t.dropped_pkts ≡ count_if not flags % 2 ^ 32)
run-init start pps bps arrivals small_pps small_bps s ordered =
    let all =
      run-Agrees pps bps small_pps small_bps (init start pps bps)
        (record { start = start; packets = 0; bytes = 0 }) start arrivals s (omega arith) ordered
        (record {
          pps_same = refl;
          bps_same = refl;
          start_same = refl;
          packets_same = refl;
          bytes_same = refl;
          fits = (omega arith, inr (omega arith));
        })
        (omega arith) in
    (all.0, omega (arith, all.1))
