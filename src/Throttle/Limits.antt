-- ===== src/Throttle/Limits.antt =====
-- What src/throttle.c does with a small limit.
use pktsnare.Common.{ℕ, ◌<◌, ◌≡◌, false, arith}
use pktsnare.Throttle.{Time, Throttle, limit, slide, admit, check}

limits-slide : (now : Time) (t : Throttle) → (slide now t).max_pps ≡ t.max_pps
unfolding slide
limits-slide now t = ground arith

limit_starved : (max : ℕ) → 0 < max → max < 10 → limit max ≡ 0
unfolding limit
limit_starved max lo hi = ground arith

-- A limit of 1 to 9 packets per second lets no packet through at all, since a tenth of it rounds
-- down to 0.
pub check_starved :
    (now : Time) (t : Throttle) (len : ℕ)
    → 0 < t.max_pps
    → t.max_pps < 10
    → (check now t len).0 ≡ false
unfolding check admit
check_starved now t len lo hi =
    let same = limits-slide now t in
    let none_left : limit (slide now t).max_pps ≡ 0 =
      limit_starved (slide now t).max_pps (omega (arith, same)) (omega (arith, same)) in
    ground (arith, none_left)
