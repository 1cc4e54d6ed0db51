-- ===== src/Throttle.antt =====
-- src/throttle.c and src/throttle.h: a limit on packets and bytes in each window of 100 ms. The
-- state is there (no NULL). `clock_gettime(CLOCK_MONOTONIC)` is the argument `now`.
pub mod Limits
pub mod Clock
pub mod Windows
mod Tests
use pktsnare.Common.{
  ℕ, ◌+◌, ◌-◌, ◌*◌, ◌/◌, ◌^◌, Bool, true, false, ◌||◌, ltb, leb, ◌==◌, if◌then◌else◌, add32, add64,
  sub64,
}

abbrev pub window_ms : ℕ
window_ms = 100

abbrev pub uint64_max : ℕ
uint64_max = 2 ^ 64 - 1

-- `struct timespec`
pub record Time : Type 0 where
  pub sec : ℕ
  pub nsec : ℕ

-- `throttle_t`
pub record Throttle : Type 0 where
  pub max_pps : ℕ
  pub max_bps : ℕ
  pub pkt_count : ℕ
  pub byte_count : ℕ
  pub window_start : Time
  pub dropped_pkts : ℕ

-- The difference in signed arithmetic, whose division rounds to 0, then as a 64-bit word.
unfoldable pub elapsed_ms : Time → Time → ℕ
elapsed_ms start end_ =
    sub64 (end_.sec * 1000 + (end_.nsec - start.nsec) / 1000000)
      (start.sec * 1000 + (start.nsec - end_.nsec) / 1000000)

abbrev pub init : Time → ℕ → ℕ → Throttle
init now max_pps max_bps = record {
  max_pps = max_pps;
  max_bps = max_bps;
  pkt_count = 0;
  byte_count = 0;
  window_start = now;
  dropped_pkts = 0;
}

abbrev pub reset : Time → Throttle → Throttle
reset now t = record t { pkt_count = 0; byte_count = 0; window_start = now }

-- The product of two 32-bit numbers does not wrap at 64 bits.
unfoldable pub limit : ℕ → ℕ
limit max = if max == 0 then uint64_max else max * window_ms / 1000

-- The window slides where it is over.
unfoldable pub slide : Time → Throttle → Throttle
slide now t =
    if leb window_ms (elapsed_ms t.window_start now)
    then record t { pkt_count = 0; byte_count = 0; window_start = now }
    else t

-- `throttle_check` behind the slide
unfoldable pub admit : ℕ → Throttle → Bool × Throttle
admit pkt_len t =
    if leb (limit t.max_pps) t.pkt_count || ltb (limit t.max_bps) (add64 t.byte_count pkt_len)
    then (false, record t { dropped_pkts = add32 t.dropped_pkts 1 })
    else (
      true,
      record t { pkt_count = add64 t.pkt_count 1; byte_count = add64 t.byte_count pkt_len },
    )

unfoldable pub check : Time → Throttle → ℕ → Bool × Throttle
check now t pkt_len = admit pkt_len (slide now t)
