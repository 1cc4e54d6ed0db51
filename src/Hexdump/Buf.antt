-- ===== src/Hexdump/Buf.antt =====
-- `hexdump_buf` of src/hexdump.c: what it leaves in the buffer, and what can be read from it.
use pktsnare.Common.{
  ℕ, zero, suc, ◌+◌, ◌-◌, ◌*◌, ◌/◌, ◌%◌, ◌≤◌, ◌<◌, ◌≡◌, refl, ap, ◌∙◌, inl, inr, true, false, some,
  List, [], ◌∷◌, ◌++◌, arith, min, ltb, leb, ◌==◌, if◌then◌else◌, Bool-cases, length, take, drop,
  All, length-append, length-take, take_all,
}
use mathlib.Core.List.{append-nil, append_assoc}
use pktsnare.Common.Slices.{take-length-append, drop-length-append, drop-drop, length-drop}
use pktsnare.Hexdump.{hex_digit, piece, print_at, dump, to_buf}

-- The text of bytes from byte `i` on
abbrev pub text : ℕ → List ℕ → List ℕ
text i [] = []
text i (b ∷ bytes) = piece i b ++ text (i + 1) bytes

-- How many bytes there is room for
abbrev pub shown : ℕ → List ℕ → ℕ
shown out_sz bytes = min (length bytes) ((out_sz - 2) / 3)

-- A buffer that begins with a text and its end, and is `buf` behind
abbrev pub with_text : List ℕ → List ℕ → List ℕ
with_text t buf = t ++ (0 ∷ drop (length t + 1) buf)

length-piece : (i b : ℕ) → length (piece i b) ≡ 3
length-piece i b = refl

length-text : (i : ℕ) (bytes : List ℕ) → length (text i bytes) ≡ 3 * length bytes
length-text i [] = omega arith
length-text i (b ∷ bytes) =
    omega (arith, length-append (piece i b) (text (i + 1) bytes), length-text (i + 1) bytes)

print_at-with_text :
    (t buf p : List ℕ) (size : ℕ)
    → length t + length p + 1 ≤ length buf
    → length p < size
    → print_at (with_text t buf) (length t) size p ≡ some (with_text (t ++ p) buf)
unfolding print_at
print_at-with_text t buf p size room fits =
    let inside : leb (length t + length p + 1) (length (with_text t buf)) ≡ true =
      ground
        (arith, length-append t (0 ∷ drop (length t + 1) buf), length-drop (length t + 1) buf) in
    let behind : drop (length t + length p + 1) (with_text t buf) ≡ drop (length (t ++ p) + 1) buf =
      drop-length-append t (0 ∷ drop (length t + 1) buf) (length t + length p + 1) (suc (length p))
        (omega arith)
      ∙ drop-drop (length p) (length t + 1) (length (t ++ p) + 1) buf
          (omega (arith, length-append t p)) in
    rw (take_all p (size - 1) (omega arith)) (
      rw inside (
        rw (behind, take-length-append t (0 ∷ drop (length t + 1) buf) (length t) refl)
          (rw (append_assoc t p) refl)))

dump-with_text :
    (out_sz : ℕ) (bytes : List ℕ) (i : ℕ) (t buf : List ℕ) (at : ℕ)
    → at ≡ length t
    → length buf ≡ out_sz
    → length t + 1 ≤ out_sz
    → dump out_sz bytes i at (with_text t buf)
      ≡ some (with_text (t ++ text i (take ((out_sz - 2 - at) / 3) bytes)) buf)
unfolding dump
dump-with_text out_sz [] i t buf at e l h =
    rw (take_all {A = ℕ} [] ((out_sz - 2 - at) / 3) (omega arith)) (rw (append-nil t) refl)
dump-with_text out_sz (b ∷ bytes) i t buf at e l h = elim (Bool-cases (ltb (at + 4) out_sz)) [
  | inr full ↦
      let none_left : (out_sz - 2 - at) / 3 ≡ 0 = ground arith in
      rw (full, dump) (rw none_left (rw (append-nil t) refl))
  | inl room ↦
      let step : print_at (with_text t buf) at (out_sz - at) (piece i b)
          ≡ some (with_text (t ++ piece i b) buf) =
        rw e (
          print_at-with_text t buf (piece i b) (out_sz - length t) (ground arith) (ground arith)) in
      let ih =
        dump-with_text out_sz bytes (i + 1) (t ++ piece i b) buf (at + 3)
          (omega (arith, length-append t (piece i b))) l
          (ground (arith, length-append t (piece i b))) in
      let one_more : (out_sz - 2 - at) / 3 ≡ suc ((out_sz - 2 - (at + 3)) / 3) = ground arith in
      rw (room, dump) (rw (step, dump) (rw one_more (ih ∙ rw (append_assoc t (piece i b)) refl)))
]

-- `hexdump_buf` of src/hexdump.c on a buffer of `out_sz` characters, at least one: it does not write
-- past the end; the buffer then holds the text of the first bytes, as many as (out_sz - 2) / 3 and as
-- there are, and a NUL, and is unchanged behind it.
pub to_buf_lem :
    (bytes buf : List ℕ) (out_sz : ℕ)
    → length buf ≡ out_sz
    → 0 < out_sz
    → to_buf bytes buf out_sz ≡ some (with_text (text 0 (take ((out_sz - 2) / 3) bytes)) buf)
unfolding to_buf
to_buf_lem bytes [] out_sz l h = ground arith
to_buf_lem bytes (x ∷ buf) out_sz l h =
    let set_ : out_sz == 0 ≡ false = ground arith in
    let there : suc (length buf) == 0 ≡ false = ground arith in
    let whole : out_sz - 2 - 0 ≡ out_sz - 2 = omega arith in
    rw (set_, there)
      (rw whole at (dump-with_text out_sz bytes 0 [] (x ∷ buf) 0 refl l (omega arith)))

-- The characters up to the NUL
abbrev pub c_string : List ℕ → List ℕ
c_string [] = []
c_string (c ∷ cs) = let rest = c_string cs in if c == 0 then [] else c ∷ rest

abbrev pub value_of : ℕ → ℕ
value_of c = if ltb c 58 then c - 48 else c - 87

-- The bytes that a text of pieces stands for
abbrev pub decode : List ℕ → List ℕ
decode [] = []
decode (h ∷ []) = []
decode (h ∷ l ∷ []) = []
decode (h ∷ l ∷ s ∷ cs) = (value_of h * 16 + value_of l) ∷ decode cs

value_of-hex_digit : (d : ℕ) → d < 16 → value_of (hex_digit d) ≡ d
value_of-hex_digit d h = ground arith

decode-text : (i : ℕ) (bytes : List ℕ) → All (λ b. b < 256) bytes → decode (text i bytes) ≡ bytes
decode-text i [] h = refl
decode-text i (b ∷ bytes) h =
    let high = value_of-hex_digit (b / 16) (omega (arith, h.0)) in
    let low = value_of-hex_digit (b % 16) (omega (arith, h.0)) in
    rw (high, low, decode-text (i + 1) bytes h.1) (ap (λ (n : ℕ). n ∷ bytes) (omega arith))

c_string-text : (i : ℕ) (bytes rest : List ℕ) → c_string (text i bytes ++ (0 ∷ rest)) ≡ text i bytes
c_string-text i [] rest = refl
c_string-text i (b ∷ bytes) rest = ground (arith, c_string-text (i + 1) bytes rest)

All-take : (n : ℕ) (bytes : List ℕ) → All (λ b. b < 256) bytes → All (λ b. b < 256) (take n bytes)
All-take zero bytes h = tt
All-take (suc n) [] h = tt
All-take (suc n) (b ∷ bytes) h = (h.0, All-take n bytes h.1)

-- `hexdump_buf` of src/hexdump.c, given bytes and a buffer of `out_sz` characters, at least one, does
-- not write past the end, and what it leaves is a text that ends in the buffer and stands for the
-- first of the bytes, as many as (out_sz - 2) / 3 and as there are.
pub decode-to_buf :
    (bytes buf : List ℕ) (out_sz : ℕ)
    → length buf ≡ out_sz
    → 0 < out_sz
    → All (λ b. b < 256) bytes
    → (out : List ℕ) × (to_buf bytes buf out_sz ≡ some out)
      × (length out ≡ out_sz)
      × (decode (c_string out) ≡ take ((out_sz - 2) / 3) bytes)
decode-to_buf bytes buf out_sz l h b =
    let first = take ((out_sz - 2) / 3) bytes in
    (
      _,
      to_buf_lem bytes buf out_sz l h,
      omega (
        arith,
        length-append (text 0 first) (0 ∷ drop (length (text 0 first) + 1) buf),
        length-drop (length (text 0 first) + 1) buf,
        length-text 0 first,
        length-take ((out_sz - 2) / 3) bytes,
      ),
      rw (c_string-text 0 first (drop (length (text 0 first) + 1) buf))
          (decode-text 0 first (All-take ((out_sz - 2) / 3) bytes b)),
    )
