-- ===== src/Limits/Tests.antt =====
-- The theorem on src/truncate.c at a concrete input.
use pktsnare.Common.{◌+◌, ◌≡◌, true, [], ◌∷◌, arith}
use pktsnare.Limits.Truncate.{Truncate, apply_all, apply_all-sum, sum}

abbrev ten : Truncate
ten = record { max_payload = 10; enabled = true; total_bytes_dropped = 0; packets_truncated = 0 }

apply_all-sum_example : sum (apply_all ten (3 ∷ 25 ∷ [])).0 + (apply_all ten (3 ∷ 25 ∷ [])).1 ≡ 28
apply_all-sum_example = (apply_all-sum ten (3 ∷ 25 ∷ []) (omega arith)).0
