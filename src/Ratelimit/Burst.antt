-- ===== src/Ratelimit/Burst.antt =====
-- What src/ratelimit.c counts, and how much it lets pass at once.
use pktsnare.Common.{
  ℕ, suc, ◌+◌, ◌-◌, ◌%◌, ◌^◌, ◌≤◌, ◌<◌, ◌≡◌, refl, ◌∙◌, inl, inr, true, false, List, [], ◌∷◌, arith,
  ℕ_discrete, if◌then◌else◌, Bool-cases, length, All, add64,
}
use pktsnare.Common.Int.{pos}
use pktsnare.Ratelimit.{Floating, Timespec, Limiter, diff_sec, refill, take_token, check}
use pktsnare.Ratelimit.Tokens.{◌⩽◌, checks}

-- How a whole number of tokens is used up, below 2^53, where `double` has every whole number
pub record IsWhole (W : Type 0) ⦃fl : Floating W⦄ : Type 0 where
  pub no_token : (x : W) → fl.lt x (fl.of_int (pos 1)) ≡ true → fl.le fl.one x ≡ false
  pub one_less :
      (x : W) (n : ℕ)
      → fl.lt x (fl.of_int (pos (suc (suc n)))) ≡ true
      → suc (suc n) < 2 ^ 53
      → fl.one ⩽ x
      → fl.lt (fl.sub x fl.one) (fl.of_int (pos (suc n))) ≡ true

module _ {W : Type 0} ⦃fl : Floating W⦄ where
  -- How many of the calls return 1
  abbrev pub passed : Limiter W → List Timespec → ℕ
  passed l [] = 0
  passed l (now ∷ times) =
      let rest = passed ((check l now).1) times in if (check l now).0 then 1 + rest else rest

  check-stats :
      (l : Limiter W) (now : Timespec)
      → let out = check l now in
        (out.1.allowed ≡ (if out.0 then add64 l.allowed 1 else l.allowed))
        × (out.1.dropped ≡ (if out.0 then l.dropped else add64 l.dropped 1))
  unfolding check take_token refill
  check-stats l now = ground arith

  -- Any calls of `ratelimit_check` of src/ratelimit.c at any times, from counters of 64 bits:
  -- `allowed` has grown by the number of calls that returned 1, and `dropped` by the number of the
  -- others, both modulo 2^64.
  pub stats-checks :
      (times : List Timespec) (l : Limiter W)
      → l.allowed < 2 ^ 64
      → l.dropped < 2 ^ 64
      → (passed l times ≤ length times)
        × ((checks l times).allowed ≡ (l.allowed + passed l times) % 2 ^ 64)
        × ((checks l times).dropped ≡ (l.dropped + (length times - passed l times)) % 2 ^ 64)
  stats-checks [] l a b = (omega arith, omega arith, omega arith)
  stats-checks (now ∷ times) l a b =
      let s = check-stats l now in
      let ih = stats-checks times ((check l now).1) (ground (arith, s)) (ground (arith, s)) in
      (ground (arith, s, ih.0), ground (arith, s, ih.0, ih.1), ground (arith, s, ih.0, ih.2))

  check_standing :
      (l : Limiter W) (now : Timespec)
      → fl.lt fl.zero_ (diff_sec now l.last_refill) ≡ false
      → check l now ≡ take_token l
  unfolding check refill
  check_standing l now h = rw h refl

  take_enough :
      (l : Limiter W)
      → fl.le fl.one l.tokens ≡ true
      → take_token l
        ≡ (true, record l { tokens = fl.sub l.tokens fl.one; allowed = add64 l.allowed 1 })
  unfolding take_token
  take_enough l e = rw e refl

  take_short :
      (l : Limiter W)
      → fl.le fl.one l.tokens ≡ false
      → take_token l ≡ (false, record l { dropped = add64 l.dropped 1 })
  unfolding take_token
  take_short l e = rw e refl

  -- Of calls of `ratelimit_check` of src/ratelimit.c at which no time has passed since the last
  -- refill, a limiter with fewer than n + 1 tokens lets at most n pass, for n + 1 below 2^53, where
  -- `double` uses up whole tokens exactly.
  pub passed-bounded :
      (whole : IsWhole W) (times : List Timespec) (l : Limiter W) (n : ℕ)
      → All (λ now. fl.lt fl.zero_ (diff_sec now l.last_refill) ≡ false) times
      → fl.lt l.tokens (fl.of_int (pos (suc n))) ≡ true
      → suc n < 2 ^ 53
      → passed l times ≤ n
  passed-bounded whole [] l n h few small = omega arith
  passed-bounded whole (now ∷ times) l n h few small = elim (Bool-cases (fl.le fl.one l.tokens)) [
    | inr short ↦
        rw (check_standing l now h.0 ∙ take_short l short)
          (passed-bounded whole times (record l { dropped = add64 l.dropped 1 }) n h.1 few small)
    | inl enough ↦ elim (ℕ_discrete n 0) [
      | yes e ↦ absurd (cc (whole.no_token l.tokens (rw e at few), enough))
      | no some_left ↦
          let next : suc (suc (n - 1)) ≡ suc n = omega arith in
          let ih =
            passed-bounded whole times
              (record l { tokens = fl.sub l.tokens fl.one; allowed = add64 l.allowed 1 }) (n - 1)
              h.1 (whole.one_less l.tokens (n - 1) (rw next few) (omega arith) enough)
              (omega arith) in
          rw (check_standing l now h.0 ∙ take_enough l enough) (omega (arith, ih))
    ]
  ]
