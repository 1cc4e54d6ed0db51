-- ===== src/Timestamp.antt =====
-- src/timestamp.c and src/timestamp.h: times in microseconds. The `struct timespec` and the buffer are
-- there (no NULL). `gmtime_r` is the argument `gmtime`, and the flags of a format are Bools of their
-- own. A text is its characters, without the NUL.
pub mod Order
pub mod Format
mod Tests
use pktsnare.Common.{
  ℕ, zero, suc, ◌+◌, ◌-◌, ◌*◌, ◌/◌, ◌%◌, ◌^◌, ◌≤◌, ◌<◌, ◌≡◌, refl, sym, ap, ap₂, subst, ◌∙◌, ◌≢◌,
  ◌↔◌, ◌⊎◌, inl, inr, Bool, true, false, not, ◌&&◌, ◌||◌, Option, none, some, List, [], ◌∷◌, ◌++◌,
  map, Perm, arith, min, ℕ_discrete, ltb, leb, ◌==◌, if◌then◌else◌, ==_iff, ==_refl, Bool-cases,
  Option-cases, length, get_elem?, get_or, set, modify, take, drop, replicate, All, length-append,
  length-set, length-modify, length-replicate, length-take, get_elem?-eq-get_or, get_elem?-none,
  get_elem?-some, get_elem?-set_self, get_elem?-set_ne, modify-set, modify-eq-set, take-set,
  take-set_end, take-suc, take_all, take-take_append, All-get_elem?, All-set, All-of_get_elem?,
  All-replicate, add8, add16, add32, add64, sub32, sub64, bit_and, bit_or, bit_xor,
}
use pktsnare.Common.Text.{codes}
use pktsnare.Common.Int.{ℤ, pos, negsuc}

pub record Timespec : Type 0 where
  pub tv_sec : ℕ
  pub tv_nsec : ℕ

unfoldable pub from_timespec : Timespec → ℕ
from_timespec ts = add64 (ts.tv_sec * 1000000 % 2 ^ 64) (ts.tv_nsec / 1000)

-- `ts_now`, where `clock_gettime` gives a time or fails
abbrev pub now : Option Timespec → ℕ
now none = 0
now (some ts) = from_timespec ts

-- A value of 64 bits as `int64_t`
abbrev pub to_int64 : ℕ → ℤ
to_int64 n = if ltb n (2 ^ 63) then pos n else negsuc (2 ^ 64 - n - 1)

-- The difference of two values as `int64_t`, with the wrap-around of the machine
unfoldable pub delta_us : ℕ → ℕ → ℤ
delta_us a b = to_int64 (sub64 a b)

-- The last `w` decimal digits of a number
unfoldable pub digits : ℕ → ℕ → List ℕ
digits zero n = []
digits (suc w) n = digits w (n / 10) ++ ((b'0' + n % 10) ∷ [])

-- At least `w` digits, and up to `more` further ones where the number needs them
unfoldable pub width : ℕ → ℕ → ℕ → ℕ
width zero w n = w
width (suc more) w n = let wider = width more (w + 1) n in if ltb n (10 ^ w) then w else wider

-- `%0wd` of a number of 64 bits, and `%llu` for `w` = 1
abbrev pub padded : ℕ → ℕ → List ℕ
padded w n = digits (width 20 w n) n

-- `%+lld`
abbrev pub signed : ℤ → List ℕ
signed (pos n) = b'+' ∷ padded 1 n
signed (negsuc n) = b'-' ∷ padded 1 (suc n)

-- `struct tm`, with the year from 0 and the month from 1 on
pub record Tm : Type 0 where
  pub year : ℕ
  pub mon : ℕ
  pub mday : ℕ
  pub hour : ℕ
  pub min : ℕ
  pub sec : ℕ

abbrev pub time_text : Tm → ℕ → List ℕ
time_text tm us =
    padded 2 tm.hour
    ++ (b':' ∷ (padded 2 tm.min ++ (b':' ∷ (padded 2 tm.sec ++ (b'.' ∷ padded 6 us)))))

abbrev pub iso_text : Tm → ℕ → List ℕ
iso_text tm us =
    padded 4 tm.year
    ++ (b'-'
        ∷ (padded 2 tm.mon
            ++ (b'-' ∷ (padded 2 tm.mday ++ (b'T' ∷ (time_text tm us ++ (b'Z' ∷ [])))))))

-- `snprintf` into `len` characters, one of them the NUL
abbrev pub cut : ℕ → List ℕ → List ℕ
cut len s = take (len - 1) s

-- `none` is NULL.
unfoldable pub format : (ℕ → Option Tm) → ℕ → ℕ → (epoch delta iso : Bool) → ℕ → Option (List ℕ)
format gmtime ts ref epoch delta iso len =
    if ltb len 2
    then none
    else if epoch
    then some (cut len (padded 1 ts))
    else if delta
    then some (cut len (signed (delta_us ts ref) ++ codes " us"))
    else elim (gmtime (ts / 1000000)) [
      | none ↦ none
      | some tm ↦
          some (cut len (if iso then iso_text tm (ts % 1000000) else time_text tm (ts % 1000000)))
    ]
