-- ===== src/Decode/Values.antt =====
-- The values that the fields of a header hold, as arithmetic on the bytes of the buffer, and the
-- proofs that the reads of src/decode.c come to them.
use pktsnare.Common.{
  ℕ, zero, suc, ◌+◌, ◌*◌, ◌/◌, ◌%◌, ◌^◌, ◌≤◌, ◌<◌, ◌≡◌, refl, ap, ◌∙◌, List, [], ◌∷◌, arith, length,
  get_or, get_elem?-eq-get_or, All,
}
use pktsnare.Common.Reads.{byte, span, be16, be32, Returns, Returns-bind}
use pktsnare.Common.Bits.{be16_lem, be32_lem}

abbrev pub AreBytes : List ℕ → Type 0
AreBytes = All (λ b. b < 256)

-- The byte at an offset, and the numbers of two and four bytes from there on, most significant first.
abbrev pub uint8_at : List ℕ → ℕ → ℕ
uint8_at buf i = get_or buf i 0

abbrev pub uint16_at : List ℕ → ℕ → ℕ
uint16_at buf i = uint8_at buf i * 256 + uint8_at buf (i + 1)

abbrev pub uint32_at : List ℕ → ℕ → ℕ
uint32_at buf i = uint16_at buf i * 65536 + uint16_at buf (i + 2)

pub uint8_at-small : (buf : List ℕ) (i : ℕ) → AreBytes buf → uint8_at buf i < 256
uint8_at-small [] i a = omega arith
uint8_at-small (b ∷ bs) zero a = a.0
uint8_at-small (b ∷ bs) (suc i) a = uint8_at-small bs i a.1

-- A span of the buffer has its bytes.
abbrev pub IsSpan : List ℕ → ℕ → ℕ → List ℕ → Type 0
IsSpan buf off n h = (i : ℕ) → i < n → get_or h i 0 ≡ get_or buf (off + i) 0

IsSpan-cons :
    (buf : List ℕ) (off n : ℕ) (b : ℕ) (bs : List ℕ)
    → b ≡ get_or buf off 0
    → IsSpan buf (off + 1) n bs
    → IsSpan buf off (suc n) (b ∷ bs)
IsSpan-cons buf off n b bs e rest zero h = e ∙ ap (λ j. get_or buf j 0) (omega arith)
IsSpan-cons buf off n b bs e rest (suc i) h =
    rest i (omega arith) ∙ ap (λ j. get_or buf j 0) (omega arith)

pub span-IsSpan :
    (buf : List ℕ) (off n : ℕ) → off + n ≤ length buf → Returns (span buf off n) (IsSpan buf off n)
unfolding span byte
span-IsSpan buf off zero h = ([], refl, λ i below. absurd (omega arith))
span-IsSpan buf off (suc n) h =
    let here = get_elem?-eq-get_or buf off 0 (omega arith) in
    Returns-bind {P = λ b. b ≡ get_or buf off 0} (byte buf off) _ (get_or buf off 0, here, refl)
      λ b hb.
        Returns-bind (span buf (off + 1) n) _ (span-IsSpan buf (off + 1) n (omega arith))
          λ bs hs. (b ∷ bs, refl, IsSpan-cons buf off n b bs hb hs)

module _ (buf : List ℕ) (off n : ℕ) (h : List ℕ) (s : IsSpan buf off n h)
    (bytes : AreBytes buf) where
  pub read8 : (i : ℕ) → i < n → get_or h i 0 % 2 ^ 8 ≡ uint8_at buf (off + i)
  read8 i below = omega (arith, s i below, uint8_at-small buf (off + i) bytes)

  -- What a read finds at an index of the span, in two forms.
  at_span : (i : ℕ) → i < n → (get_or h i 0 ≡ uint8_at buf (off + i)) × (get_or h i 0 < 256)
  at_span i below = (s i below, omega (arith, s i below, uint8_at-small buf (off + i) bytes))

  -- The two halves of a byte
  pub read4 :
      (i : ℕ)
      → i < n
      → (get_or h i 0 / 16 % 16 % 2 ^ 8 ≡ uint8_at buf (off + i) / 16)
        × (get_or h i 0 % 16 % 2 ^ 8 ≡ uint8_at buf (off + i) % 16)
  read4 i below = let a = at_span i below in (omega (arith, a.0, a.1), omega (arith, a.0, a.1))

  pub read16 :
      (i j : ℕ)
      → i < n
      → j < n
      → be16 (get_or h i 0) (get_or h j 0) % 2 ^ 16
        ≡ uint8_at buf (off + i) * 256 + uint8_at buf (off + j)
  read16 i j hi hj =
      let a = at_span i hi in
      let b = at_span j hj in
      omega (arith, a.0, a.1, b.0, b.1, be16_lem (get_or h i 0) (get_or h j 0) b.1)

  pub read32 :
      (i j k l : ℕ)
      → i < n
      → j < n
      → k < n
      → l < n
      → be32 (get_or h i 0) (get_or h j 0) (get_or h k 0) (get_or h l 0)
        ≡ (uint8_at buf (off + i) * 256 + uint8_at buf (off + j)) * 65536
          + (uint8_at buf (off + k) * 256 + uint8_at buf (off + l))
  read32 i j k l hi hj hk hl =
      let a = at_span i hi in
      let b = at_span j hj in
      let c = at_span k hk in
      let d = at_span l hl in
      omega (
        arith,
        a.0,
        b.0,
        c.0,
        d.0,
        be32_lem (get_or h i 0) (get_or h j 0) (get_or h k 0) (get_or h l 0) (b.1) (c.1) (d.1),
      )
