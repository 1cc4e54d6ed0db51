-- ===== src/Common/Bits.antt =====
-- `|` of numbers whose binary digits do not meet, which is their sum.
use Prim.Native.Nat.{
  ℕ, zero, suc, ◌+◌, ◌*◌, ◌/◌, ◌^◌, ◌≤◌, ◌<◌, max, digits, bit_or, bit_or-bitwise,
}
use mathlib.Core.Path.{◌≡◌, refl, ap}
use native.Mathlib.Nat.{pow-suc, le_refl}
use native.Mathlib.Omega.{arith}
use pktsnare.Common.Reads.{be16, be32}

twice : (q k : ℕ) → q * 2 ^ suc k ≡ 2 * (q * 2 ^ k)
twice q k = omega (arith, ap (λ (t : ℕ). q * t) (pow-suc 2 k))

-- The digits of a multiple of `2 ^ k` and of a number below it, with enough steps.
digits_sum : (n k q a r : ℕ) → a ≡ q * 2 ^ k → a ≤ n → r < 2 ^ k → digits (λ b. b) max n a r ≡ a + r
digits_sum zero k q zero r e h s = omega arith
digits_sum zero k q (suc a) r e h s = absurd (omega arith)
digits_sum (suc n) k q zero r e h s = omega arith
digits_sum (suc n) zero q (suc a) r e h s = ground (
  arith,
  digits_sum n zero (suc a / 2) (suc a / 2) (r / 2) (omega arith) (omega arith) (omega arith),
)
digits_sum (suc n) (suc k) q (suc a) r e h s = ground (
  arith,
  twice q k,
  digits_sum n k q (suc a / 2) (r / 2) (omega (arith, twice q k)) (omega arith)
      (omega (arith, pow-suc 2 k)),
  pow-suc 2 k,
)

pub bit_or-shifted : (k q r : ℕ) → r < 2 ^ k → bit_or (q * 2 ^ k) r ≡ q * 2 ^ k + r
bit_or-shifted k q r h =
    simp bit_or-bitwise (digits_sum (q * 2 ^ k) k q (q * 2 ^ k) r refl (le_refl _) h)

pub be16_lem : (hi lo : ℕ) → lo < 256 → be16 hi lo ≡ hi * 256 + lo
unfolding be16
be16_lem hi lo h = bit_or-shifted 8 hi lo h

pub be32_lem :
    (a b c d : ℕ)
    → b < 256
    → c < 256
    → d < 256
    → be32 a b c d ≡ a * 16777216 + b * 65536 + c * 256 + d
unfolding be32
be32_lem a b c d hb hc hd =
    let first = bit_or-shifted 24 a (b * 2 ^ 16) (omega arith) in
    let second = bit_or-shifted 16 (a * 256 + b) (c * 2 ^ 8) (omega arith) in
    let third = bit_or-shifted 8 (a * 65536 + b * 256 + c) d (omega arith) in
    ground (arith, first, second, third)
