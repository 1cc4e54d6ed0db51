-- ===== src/Ratelimit.antt =====
-- src/ratelimit.c and the record of src/ratelimit.h: a token bucket. Numbers of type `double` are an
-- argument, with the operations that the code uses on them, and the times that `clock_gettime` gives
-- are arguments. The pointers are there (no NULL), and a negated errno is `none`.
pub mod Tokens
pub mod Burst
mod Tests
use pktsnare.Common.{
  ℕ, zero, suc, ◌+◌, ◌-◌, ◌*◌, ◌/◌, ◌%◌, ◌^◌, ◌≤◌, ◌<◌, ◌≡◌, refl, sym, ap, ap₂, subst, ◌∙◌, ◌≢◌,
  ◌↔◌, ◌⊎◌, inl, inr, Bool, true, false, not, ◌&&◌, ◌||◌, Option, none, some, List, [], ◌∷◌, ◌++◌,
  map, Perm, arith, min, ℕ_discrete, ltb, leb, ◌==◌, if◌then◌else◌, ==_iff, ==_refl, Bool-cases,
  Option-cases, length, get_elem?, get_or, set, modify, take, drop, replicate, All, length-append,
  length-set, length-modify, length-replicate, length-take, get_elem?-eq-get_or, get_elem?-none,
  get_elem?-some, get_elem?-set_self, get_elem?-set_ne, modify-set, modify-eq-set, take-set,
  take-set_end, take-suc, take_all, take-take_append, All-get_elem?, All-set, All-of_get_elem?,
  All-replicate, add8, add16, add32, add64, sub32, sub64, bit_and, bit_or, bit_xor,
}
use pktsnare.Common.Int.{ℤ, pos, sub_ℕ}

-- What the code does with a `double`; `nano` is 1e-9.
pub record Floating (W : Type 0) : Type 0 where
  pub zero_ : W
  pub one : W
  pub nano : W
  pub of_int : ℤ → W
  pub add : W → W → W
  pub sub : W → W → W
  pub mul : W → W → W
  pub div : W → W → W
  pub lt : W → W → Bool
  pub le : W → W → Bool

-- `struct timespec`
pub record Timespec : Type 0 where
  pub sec : ℕ
  pub nsec : ℕ

-- `ratelimit_t`
pub record Limiter (W : Type 0) : Type 0 where
  pub tokens : W
  pub capacity : W
  pub rate : W
  pub last_refill : Timespec
  pub dropped : ℕ
  pub allowed : ℕ

module _ {W : Type 0} ⦃fl : Floating W⦄ where
  -- `timespec_diff_sec`
  abbrev pub diff_sec : Timespec → Timespec → W
  diff_sec a b =
      fl.add (fl.of_int (sub_ℕ a.sec b.sec)) (fl.mul (fl.of_int (sub_ℕ a.nsec b.nsec)) fl.nano)

  unfoldable pub init : W → W → Timespec → Option (Limiter W)
  init rate burst now =
      if fl.le rate fl.zero_ || fl.le burst fl.zero_
      then none
      else some record {
        tokens = burst;
        capacity = burst;
        rate = rate;
        last_refill = now;
        dropped = 0;
        allowed = 0;
      }

  -- The first part of `ratelimit_check`: what has come in since
  unfoldable pub refill : Limiter W → Timespec → Limiter W
  refill l now =
      let elapsed = diff_sec now l.last_refill in
      let more = fl.add l.tokens (fl.mul elapsed l.rate) in
      if fl.lt fl.zero_ elapsed
      then record l {
        tokens = if fl.lt l.capacity more then l.capacity else more;
        last_refill = now;
      }
      else l

  -- The second part: a token is taken, if there is one.
  unfoldable pub take_token : Limiter W → Bool × Limiter W
  take_token l =
      if fl.le fl.one l.tokens
      then (true, record l { tokens = fl.sub l.tokens fl.one; allowed = add64 l.allowed 1 })
      else (false, record l { dropped = add64 l.dropped 1 })

  unfoldable pub check : Limiter W → Timespec → Bool × Limiter W
  check l now = take_token (refill l now)

  unfoldable pub drop_ratio : Limiter W → W
  drop_ratio l =
      let total = add64 l.allowed l.dropped in
      if total == 0 then fl.zero_ else fl.div (fl.of_int (pos l.dropped)) (fl.of_int (pos total))

unfoldable pub reset : {W : Type 0} → Limiter W → Timespec → Limiter W
reset l now = record l { tokens = l.capacity; dropped = 0; allowed = 0; last_refill = now }

abbrev pub stats : {W : Type 0} → Limiter W → ℕ × ℕ
stats l = (l.allowed, l.dropped)
