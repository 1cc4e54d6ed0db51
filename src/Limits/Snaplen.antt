-- ===== src/Limits/Snaplen.antt =====
-- src/snaplen.c and src/snaplen.h: the snapshot length, and how many packets it has cut.
use pktsnare.Common.{
  ℕ, ◌+◌, ◌%◌, ◌^◌, ◌≤◌, ◌<◌, ◌≡◌, refl, ap₂, ◌↔◌, inl, inr, Bool, ◌||◌, List, [], ◌∷◌, map, arith,
  min, ltb, if◌then◌else◌, Bool-cases, length, add32,
}
use pktsnare.Common.Filter.{count_if}
use pktsnare.Common.Int.{ℤ, success, failure}

abbrev pub snaplen_min : ℕ
snaplen_min = 14

abbrev pub snaplen_max : ℕ
snaplen_max = 65535

-- `snaplen_ctx_t`
pub record Snaplen : Type 0 where
  pub value : ℕ
  pub truncated : ℕ
  pub total : ℕ

abbrev out_of_bounds : ℕ → Bool
out_of_bounds len = ltb len snaplen_min || ltb snaplen_max len

unfoldable pub init : ℕ → ℤ × Snaplen
init len =
    if out_of_bounds len
    then (failure, record { value = 0; truncated = 0; total = 0 })
    else (success, record { value = len; truncated = 0; total = 0 })

unfoldable pub clamp : Snaplen → ℕ → ℕ × Snaplen
clamp c pkt_len =
    if ltb c.value pkt_len
    then (c.value, record c { total = add32 c.total 1; truncated = add32 c.truncated 1 })
    else (pkt_len, record c { total = add32 c.total 1 })

unfoldable pub set_len : Snaplen → ℕ → ℤ × Snaplen
set_len c len = if out_of_bounds len then (failure, c) else (success, record c { value = len })

abbrev pub get_len : Snaplen → ℕ
get_len c = c.value

-- The lengths that a sequence of packets is cut to.
pub clamp_all : Snaplen → List ℕ → List ℕ × Snaplen
clamp_all c [] = ([], c)
clamp_all c (len ∷ lens) =
    let (cut, c') = clamp c len in let (cuts, last) = clamp_all c' lens in (cut ∷ cuts, last)

abbrev pub IsValid : Snaplen → Type 0
IsValid c = (14 ≤ c.value) × (c.value ≤ 65535)

-- A length that is accepted is one of 14 to 65535, and any other leaves the context as it was.
pub set_len-IsValid :
    (c : Snaplen) (len : ℕ)
    → IsValid c
    → let (status, c') = set_len c len in
      IsValid c'
      × ((status ≡ success) ↔ ((14 ≤ len) × (len ≤ 65535)))
      × (c'.value ≡ (if ltb len 14 || ltb 65535 len then c.value else len))
unfolding set_len
set_len-IsValid c len v = ground arith

-- Along a sequence of packets, from counters of 32 bits, each length is cut to the smaller of it
-- and the snapshot length, which stays, and the counters add, modulo 2^32, the packets seen and
-- those longer than the snapshot length.
pub clamp_all-min :
    (c : Snaplen) (lens : List ℕ)
    → c.total < 2 ^ 32
    → c.truncated < 2 ^ 32
    → let (cuts, c') = clamp_all c lens in
      (cuts ≡ map (λ len. min len c.value) lens)
      × (c'.value ≡ c.value)
      × (c'.total ≡ (c.total + length lens) % 2 ^ 32)
      × (c'.truncated ≡ (c.truncated + count_if (λ len. ltb c.value len) lens) % 2 ^ 32)
unfolding clamp_all clamp
clamp_all-min c [] h k = (refl, refl, omega arith, omega arith)
clamp_all-min c (len ∷ lens) h k = elim (Bool-cases (ltb c.value len)) [
  | inl long ↦
      let ih =
        clamp_all-min (record c { total = add32 c.total 1; truncated = add32 c.truncated 1 }) lens
          (omega arith) (omega arith) in
      rw long (ap₂ ◌∷◌ (ground arith) (ih.0), ih.1, omega (arith, ih.2), omega (arith, ih.3))
  | inr short ↦
      let ih = clamp_all-min (record c { total = add32 c.total 1 }) lens (omega arith) k in
      rw short (ap₂ ◌∷◌ (ground arith) (ih.0), ih.1, omega (arith, ih.2), omega (arith, ih.3))
]
