-- ===== src/Fragtrack/Coverage.antt =====
-- The sum of the sizes of fragments in src/fragtrack.c.
use pktsnare.Common.{ℕ, zero, suc, ◌+◌, ◌%◌, ◌^◌, ◌<◌, ◌≡◌, List, [], ◌∷◌, arith, take, add16}
use pktsnare.Fragtrack.{covered}

-- The sum of sizes, without a bound.
abbrev pub sum : List ℕ → ℕ
sum [] = 0
sum (n ∷ ns) = n + sum ns

pub covered-sum :
    (n : ℕ) (sizes : List ℕ) (acc : ℕ)
    → acc < 2 ^ 16
    → covered n sizes acc ≡ (acc + sum (take n sizes)) % 2 ^ 16
unfolding covered
covered-sum zero sizes acc h = omega arith
covered-sum (suc n) [] acc h = omega arith
covered-sum (suc n) (size ∷ sizes) acc h =
    omega (arith, covered-sum n sizes (add16 acc size) (omega arith))
