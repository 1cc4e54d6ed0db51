-- ===== src/Throttle/Clock.antt =====
-- The milliseconds of src/throttle.c, in terms of the nanoseconds that have gone by.
use pktsnare.Common.{
  ℕ, ◌+◌, ◌-◌, ◌*◌, ◌^◌, ◌≤◌, ◌<◌, ◌≡◌, inl, inr, Bool, ◌||◌, ◌&&◌, arith, ltb, leb, Bool-cases,
}
use pktsnare.Throttle.{Time, elapsed_ms}

abbrev pub nanos : Time → ℕ
nanos t = t.sec * 1000000000 + t.nsec

-- What `clock_gettime` gives, up to a date far away
abbrev pub IsTime : Time → Type 0
IsTime t = (t.sec < 2 ^ 48) × (t.nsec < 1000000000)

-- 100 ms have gone by; more than 99 ms will do where the nanoseconds of the second are fewer than
-- they were, since the division then rounds up.
abbrev pub is_over : Time → Time → Bool
is_over start now =
    leb 100000000 (nanos now - nanos start)
    || (ltb now.nsec start.nsec && ltb 99000000 (nanos now - nanos start))

pub elapsed_ms-is_over :
    (start now : Time)
    → IsTime start
    → IsTime now
    → nanos start ≤ nanos now
    → leb 100 (elapsed_ms start now) ≡ is_over start now
unfolding elapsed_ms
elapsed_ms-is_over start now s n later = elim (Bool-cases (ltb now.nsec start.nsec)) [
  | inl less ↦ ground (arith, s, n, later, less)
  | inr more ↦ ground (arith, s, n, later, more)
]
