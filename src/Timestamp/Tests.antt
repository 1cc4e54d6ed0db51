-- ===== src/Timestamp/Tests.antt =====
-- Runs of the model of src/timestamp.c, and its theorem at a concrete input.
use pktsnare.Common.{ℕ, ◌≡◌, refl, true, false, Option, some, List, arith, length, drop}
use pktsnare.Common.Int.{negsuc}
use pktsnare.Common.Text.{codes, digits_value}
use pktsnare.Timestamp.{Timespec, from_timespec, delta_us, Tm, digits, width, format}
use pktsnare.Timestamp.Format.{format_lem}

abbrev early : Timespec
early = record { tv_sec = 5; tv_nsec = 1999 }

abbrev late : Timespec
late = record { tv_sec = 6; tv_nsec = 0 }

delta_us_run :
    (from_timespec early ≡ 5000001)
    × (delta_us (from_timespec early) (from_timespec late) ≡ negsuc 999998)
unfolding from_timespec delta_us
delta_us_run = (refl, refl)

-- The third of January 2024, whatever the seconds are
abbrev gmtime : ℕ → Option Tm
gmtime s = some (record { year = 2024; mon = 1; mday = 3; hour = 15; min = 4; sec = 9 })

format_run :
    (format gmtime 7000123 0 false false true 64 ≡ some (codes "2024-01-03T15:04:09.000123Z"))
    × (format gmtime 7 9 false true false 64 ≡ some (codes "-2 us"))
    × (format gmtime 700 0 true false false 3 ≡ some (codes "70"))
unfolding format digits width delta_us
format_run = (refl, refl, refl)

format_lem_example :
    (s : List ℕ) × (format gmtime 7000123 0 false false false 64 ≡ some s)
    × (length s ≡ 15)
    × (digits_value 0 s ≡ 15)
    × (digits_value 0 (drop 3 s) ≡ 4)
    × (digits_value 0 (drop 3 (drop 3 s)) ≡ 9)
    × (digits_value 0 (drop 3 (drop 3 (drop 3 s))) ≡ 123)
format_lem_example =
    format_lem gmtime 7000123 0 64
      (record { year = 2024; mon = 1; mday = 3; hour = 15; min = 4; sec = 9 }) refl (omega arith)
      (omega arith) (omega arith) (omega arith)
