-- ===== src/Ratelimit/Tests.antt =====
-- Runs of the model of src/ratelimit.c over whole numbers, and its theorems at concrete inputs.
use pktsnare.Common.{ℕ, ◌+◌, ◌-◌, ◌*◌, ◌≤◌, ◌≡◌, refl, some, [], ◌∷◌, arith, ltb, leb}
use pktsnare.Common.Int.{pos_part}
use pktsnare.Ratelimit.{Floating, Timespec, Limiter, init, refill, take_token, check}
use pktsnare.Ratelimit.Tokens.{checks, IsArithmetic, IsValid, checks-init}
use pktsnare.Ratelimit.Burst.{IsWhole, passed, passed-bounded}

-- Whole numbers, without nanoseconds, in the place of `double`.
instance abbrev whole_floating : Floating ℕ
whole_floating = record {
  zero_ = 0;
  one = 1;
  nano = 0;
  of_int = pos_part;
  add = λ x y. x + y;
  sub = λ x y. x - y;
  mul = λ x y. x * y;
  div = λ x y. x;
  lt = ltb;
  le = leb;
}

whole-IsArithmetic : IsArithmetic ℕ
whole-IsArithmetic = record {
  zero_is_number = refl;
  left_number = λ a b h. ground arith;
  right_number = λ a b h. ground arith;
  chain = λ x y z h k. ground arith;
  lt_is_not_ge = λ x y h k. ground arith;
  lt_gives_le = λ x y h. ground arith;
  add_nonneg = λ x y h k. ground arith;
  mul_nonneg = λ x y h k. ground arith;
  sub_nonneg = λ x h. ground arith;
  sub_le = λ x h. ground arith;
}

tokens-IsWhole : IsWhole ℕ
tokens-IsWhole = record { no_token = λ x h. ground arith; one_less = λ x n h k e. ground arith }

abbrev at : ℕ → Timespec
at s = record { sec = s; nsec = 0 }

abbrev two : Limiter ℕ
two = record { tokens = 2; capacity = 2; rate = 1; last_refill = at 10; dropped = 0; allowed = 0 }

two_run : init 1 2 (at 10) ≡ some two
unfolding init
two_run = refl

passed_run : passed two (at 10 ∷ at 10 ∷ at 10 ∷ at 11 ∷ []) ≡ 3
unfolding check refill take_token
passed_run = refl

checks-init_example : IsValid (checks two (at 10 ∷ at 20 ∷ []))
checks-init_example =
    checks-init whole-IsArithmetic 1 2 (at 10) (at 10 ∷ at 20 ∷ []) two_run refl refl

passed-bounded_example : passed two (at 10 ∷ at 10 ∷ at 10 ∷ []) ≤ 2
passed-bounded_example =
    passed-bounded tokens-IsWhole (at 10 ∷ at 10 ∷ at 10 ∷ []) two 2 (refl, (refl, (refl, tt))) refl
      (omega arith)
