-- ===== src/Timestamp/Order.antt =====
-- src/timestamp.c on the times that a clock gives.
use pktsnare.Common.{ℕ, ◌+◌, ◌*◌, ◌/◌, ◌%◌, ◌^◌, ◌<◌, ◌≡◌, arith}
use pktsnare.Common.Int.{sub_ℕ}
use pktsnare.Timestamp.{Timespec, from_timespec, delta_us}

-- A time of a clock, before the year 10000 and more
pub record IsTime (ts : Timespec) : Type 0 where
  pub sec : ts.tv_sec < 2 ^ 43
  pub nsec : ts.tv_nsec < 1000000000

-- The microseconds since the epoch, as they are
abbrev pub micros : Timespec → ℕ
micros ts = ts.tv_sec * 1000000 + ts.tv_nsec / 1000

from_timespec-eq : (ts : Timespec) → IsTime ts → from_timespec ts ≡ micros ts
unfolding from_timespec
from_timespec-eq ts t = omega (arith, t.sec, t.nsec)

-- For two times with less than 2^43 seconds and less than 10^9 nanoseconds, `ts_from_timespec` of
-- src/timestamp.c keeps the seconds and the microseconds, which `ts_format` takes apart again, and
-- `ts_delta_us` is the difference in microseconds, negative if the first time is the earlier one.
pub delta_us-from_timespec :
    (a b : Timespec)
    → IsTime a
    → IsTime b
    → (from_timespec a / 1000000 ≡ a.tv_sec)
      × (from_timespec a % 1000000 ≡ a.tv_nsec / 1000)
      × (delta_us (from_timespec a) (from_timespec b) ≡ sub_ℕ (micros a) (micros b))
unfolding delta_us
delta_us-from_timespec a b t u =
    let e = from_timespec-eq a t in
    let f = from_timespec-eq b u in
    (
      omega (arith, e, t.nsec),
      omega (arith, e, t.nsec),
      rw (e, f) (ground (arith, t.sec, t.nsec, u.sec, u.nsec)),
    )
