-- ===== src/Capture/Loop.antt =====
-- The loop of src/capture.c: what it hands over, what it counts and that it ends.
use pktsnare.Common.{
  ℕ, ◌+◌, ◌%◌, ◌^◌, ◌≤◌, ◌<◌, ◌≡◌, refl, ap, ◌∙◌, Bool, true, false, Option, none, some, List, [],
  ◌∷◌, ◌++◌, arith, length, All,
}
use pktsnare.Common.Int.{ℤ, success, failure}
use mathlib.Core.Option
use pktsnare.Capture.{Ctx, Packet, Recv, bytes, interrupted, failed, Round, packet, counted, loop}

-- The flag is not set and there is no error.
abbrev calm_recv : Recv → Bool
calm_recv (bytes bs now) = true
calm_recv interrupted = true
calm_recv failed = false

abbrev pub IsCalm : Round → Type 0
IsCalm (stop, recv) = (stop ≡ false) × (calm_recv recv ≡ true)

-- What the loop returns in a round that is not calm
abbrev pub result : Round → Option ℤ
result (true, recv) = some success
result (false, failed) = some failure
result (false, interrupted) = none
result (false, bytes bs now) = none

-- What came in these rounds, with its time
abbrev arrived : Recv → List (List ℕ × ℕ) → List (List ℕ × ℕ)
arrived (bytes bs now) fs = (bs, now) ∷ fs
arrived interrupted fs = fs
arrived failed fs = fs

abbrev pub frames : List Round → List (List ℕ × ℕ)
frames [] = []
frames ((stop, recv) ∷ rs) = arrived recv (frames rs)

abbrev pub total : List (List ℕ × ℕ) → ℕ
total [] = 0
total (f ∷ fs) = length f.0 + total fs

-- The packet that stands for a frame
abbrev pub whole : List ℕ × ℕ → Packet
whole f = record { bytes = f.0; len = length f.0; caplen = length f.0; ts = f.1 }

abbrev pub Fits : List ℕ × ℕ → Type 0
Fits f = length f.0 ≤ 65535

packet-whole :
    (c : Ctx) (bs : List ℕ) (now : ℕ)
    → c.snaplen ≡ 65535
    → length bs ≤ 65535
    → packet c bs now ≡ whole (bs, now)
packet-whole c bs now e h = ground arith

module _ {S : Type 0} (handler : Packet → S → S) where
  -- The handler on each frame in turn
  abbrev pub handled : S → List (List ℕ × ℕ) → S
  handled s [] = s
  handled s (f ∷ fs) = handled (handler (whole f) s) fs

  -- The rounds before the last one run.
  loop-calm :
      (c : Ctx) (s : S) (before after : List Round)
      → All IsCalm before
      → All Fits (frames before)
      → c.snaplen ≡ 65535
      → c.pkt_count < 2 ^ 64
      → c.byte_count < 2 ^ 64
      → (c' : Ctx) × (loop handler c s (before ++ after)
          ≡ loop handler c' (handled s (frames before)) after)
        × (c'.pkt_count ≡ (c.pkt_count + length (frames before)) % 2 ^ 64)
        × (c'.byte_count ≡ (c.byte_count + total (frames before)) % 2 ^ 64)
  unfolding loop
  loop-calm c s [] after h f e p b = (c, refl, omega arith, omega arith)
  loop-calm c s ((true, recv) ∷ rs) after h f e p b = absurd (cc (h.0.0))
  loop-calm c s ((false, failed) ∷ rs) after h f e p b = absurd (cc (h.0.1))
  loop-calm c s ((false, interrupted) ∷ rs) after h f e p b = loop-calm c s rs after h.1 f e p b
  loop-calm c s ((false, bytes bs now) ∷ rs) after h f e p b =
      let same : packet c bs now ≡ whole (bs, now) = packet-whole c bs now e f.0 in
      let ih =
        loop-calm (counted c (whole (bs, now))) (handler (whole (bs, now)) s) rs after h.1 f.1 e
          (omega arith) (omega arith) in
      (
        ih.0,
        ap (λ (q : Packet). loop handler (counted c q) (handler q s) (rs ++ after)) same ∙ ih.1,
        omega (arith, ih.2),
        omega (arith, ih.3),
      )

  loop-result :
      (c : Ctx) (s : S) (r : Round) (after : List Round) (code : ℤ)
      → result r ≡ some code
      → loop handler c s (r ∷ after) ≡ some (code, c, s)
  unfolding loop
  loop-result c s (true, recv) after code e =
      ap (λ (o : Option ℤ). Option.map (λ (x : ℤ). (x, c, s)) o) e
  loop-result c s (false, failed) after code e =
      ap (λ (o : Option ℤ). Option.map (λ (x : ℤ). (x, c, s)) o) e
  loop-result c s (false, interrupted) after code e = cc
  loop-result c s (false, bytes bs now) after code e = cc

  -- `capture_loop` of src/capture.c, on a context with the snapshot length of `capture_open` and
  -- counters of 64 bits, where rounds without the flag and without an error, whose frames have at most
  -- 65535 bytes, are followed by one with the flag or with an error other than `EINTR`: it returns 0
  -- for the flag and -1 for the error, it has called the handler on exactly the frames before, in
  -- their order, each whole and with its length, and it has added their number and their bytes to the
  -- counters, modulo 2^64.
  pub loop-ends :
      (c : Ctx) (s : S) (before after : List Round) (r : Round) (code : ℤ)
      → All IsCalm before
      → result r ≡ some code
      → All Fits (frames before)
      → c.snaplen ≡ 65535
      → c.pkt_count < 2 ^ 64
      → c.byte_count < 2 ^ 64
      → (c' : Ctx) × (loop handler c s (before ++ (r ∷ after))
          ≡ some (code, c', handled s (frames before)))
        × (c'.pkt_count ≡ (c.pkt_count + length (frames before)) % 2 ^ 64)
        × (c'.byte_count ≡ (c.byte_count + total (frames before)) % 2 ^ 64)
  loop-ends c s before after r code h e f n p b =
      let run = loop-calm c s before (r ∷ after) h f n p b in
      (run.0, run.1 ∙ loop-result run.0 (handled s (frames before)) r after code e, run.2, run.3)
