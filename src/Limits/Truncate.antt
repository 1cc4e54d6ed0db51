-- ===== src/Limits/Truncate.antt =====
-- src/truncate.c and src/truncate.h: the limit on a payload, and how many bytes it has removed.
use pktsnare.Common.{
  ℕ, ◌+◌, ◌-◌, ◌%◌, ◌^◌, ◌≤◌, ◌<◌, ◌≡◌, inl, inr, Bool, true, false, not, ◌&&◌, ◌||◌, List, [], ◌∷◌,
  arith, ltb, ◌==◌, if◌then◌else◌, Bool-cases, All, add64,
}

abbrev pub max_payload_len : ℕ
max_payload_len = 65535

abbrev pub default_len : ℕ
default_len = 128

-- `truncate_ctx_t`
pub record Truncate : Type 0 where
  pub max_payload : ℕ
  pub enabled : Bool
  pub total_bytes_dropped : ℕ
  pub packets_truncated : ℕ

unfoldable pub init : ℕ → Truncate
init max_payload = record {
  max_payload =
      if max_payload == 0 || ltb max_payload_len max_payload then default_len else max_payload;
  enabled = true;
  total_bytes_dropped = 0;
  packets_truncated = 0;
}

abbrev pub reset_stats : Truncate → Truncate
reset_stats c = record c { total_bytes_dropped = 0; packets_truncated = 0 }

-- The bytes removed, the new length, and the context.
unfoldable pub apply : Truncate → ℕ → ℕ × ℕ × Truncate
apply c len =
    if not c.enabled
    then (0, len, c)
    else if ltb c.max_payload len
    then (
      len - c.max_payload,
      c.max_payload,
      record c {
        total_bytes_dropped = add64 c.total_bytes_dropped (len - c.max_payload);
        packets_truncated = add64 c.packets_truncated 1;
      },
    )
    else (0, len, c)

-- The lengths of a sequence of payloads, and the bytes removed from all of them.
pub apply_all : Truncate → List ℕ → List ℕ × ℕ × Truncate
apply_all c [] = ([], 0, c)
apply_all c (len ∷ lens) =
    let (dropped, len', c') = apply c len in
    let (lens', all, last) = apply_all c' lens in (len' ∷ lens', dropped + all, last)

abbrev pub sum : List ℕ → ℕ
sum [] = 0
sum (n ∷ ns) = n + sum ns

abbrev cut : Truncate → ℕ → Truncate
cut c dropped = record c {
  total_bytes_dropped = add64 c.total_bytes_dropped dropped;
  packets_truncated = add64 c.packets_truncated 1;
}

apply_long :
    (c : Truncate) (len : ℕ)
    → c.enabled ≡ true
    → c.max_payload < len
    → apply c len ≡ (len - c.max_payload, c.max_payload, cut c (len - c.max_payload))
unfolding apply
apply_long c len on h = let long : ltb c.max_payload len ≡ true = ground arith in rw (long, on)

apply_rest :
    (c : Truncate) (len : ℕ)
    → (c.enabled && ltb c.max_payload len) ≡ false
    → apply c len ≡ (0, len, c)
unfolding apply
apply_rest c len h = ground arith

-- Along a sequence of payloads, from a counter of 64 bits, the bytes kept and the bytes removed
-- add up to the bytes that there were, the counter adds those removed modulo 2^64, and an enabled
-- context leaves no payload longer than its limit.
pub apply_all-sum :
    (c : Truncate) (lens : List ℕ)
    → c.total_bytes_dropped < 2 ^ 64
    → let (kept, dropped, c') = apply_all c lens in
      (sum kept + dropped ≡ sum lens)
      × (c'.total_bytes_dropped ≡ (c.total_bytes_dropped + dropped) % 2 ^ 64)
      × (c.enabled ≡ true → All (λ len. len ≤ c.max_payload) kept)
unfolding apply_all
apply_all-sum c [] h = (omega arith, omega arith, λ e. tt)
apply_all-sum c (len ∷ lens) h = elim (Bool-cases (c.enabled && ltb c.max_payload len)) [
  | inl long ↦
      let on : c.enabled ≡ true = ground arith in
      let past : c.max_payload < len = ground arith in
      let ih = apply_all-sum (cut c (len - c.max_payload)) lens (omega arith) in
      rw (apply_long c len on past)
        (omega (arith, ih.0), omega (arith, ih.1), λ e. (omega arith, ih.2 e))
  | inr rest ↦
      let ih = apply_all-sum c lens h in
      rw (apply_rest c len rest)
        (omega (arith, ih.0), omega (arith, ih.1), λ e. (ground (arith, e), ih.2 e))
]
