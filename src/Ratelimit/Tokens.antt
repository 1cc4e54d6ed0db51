-- ===== src/Ratelimit/Tokens.antt =====
-- The tokens of src/ratelimit.c: never more than the capacity, and never less than none.
use pktsnare.Common.{
  ◌≡◌, subst, inl, inr, true, false, not, ◌||◌, some, List, [], ◌∷◌, arith, if◌then◌else◌,
  Bool-cases,
}
use mathlib.Core.Option.{some-injective}
use pktsnare.Ratelimit.{Floating, Timespec, Limiter, diff_sec, init, refill, take_token, check}

-- `<=`, as a statement
infix 50 ◌⩽◌
abbrev pub ◌⩽◌ : {W : Type 0} ⦃fl : Floating W⦄ → W → W → Type 0
◌⩽◌ ⦃fl⦄ a b = fl.le a b ≡ true

-- What the limiter needs of the arithmetic of IEEE 754. NaN is not `<=` anything.
pub record IsArithmetic (W : Type 0) ⦃fl : Floating W⦄ : Type 0 where
  pub sub_le : (a : W) → fl.one ⩽ a → fl.sub a fl.one ⩽ a
  pub sub_nonneg : (a : W) → fl.one ⩽ a → fl.zero_ ⩽ fl.sub a fl.one
  pub add_nonneg : (a b : W) → fl.zero_ ⩽ a → fl.zero_ ⩽ b → fl.zero_ ⩽ fl.add a b
  pub mul_nonneg :
      (a b : W) → fl.lt fl.zero_ a ≡ true → fl.lt fl.zero_ b ≡ true → fl.zero_ ⩽ fl.mul a b
  pub lt_gives_le : (a b : W) → fl.lt a b ≡ true → a ⩽ b
  pub lt_is_not_ge : (a b : W) → a ⩽ a → b ⩽ b → fl.lt a b ≡ not (fl.le b a)
  pub chain : (a b c : W) → a ⩽ b → b ⩽ c → a ⩽ c
  pub left_number : (a b : W) → a ⩽ b → a ⩽ a
  pub right_number : (a b : W) → a ⩽ b → b ⩽ b
  pub zero_is_number : fl.zero_ ⩽ fl.zero_

pub record IsValid {W : Type 0} ⦃fl : Floating W⦄ (l : Limiter W) : Type 0 where
  pub some_left : fl.zero_ ⩽ l.tokens
  pub bounded : l.tokens ⩽ l.capacity
  pub fills : fl.lt fl.zero_ l.rate ≡ true

module _ {W : Type 0} ⦃fl : Floating W⦄ where
  -- The calls of `ratelimit_check` at some times, one after the other
  abbrev pub checks : Limiter W → List Timespec → Limiter W
  checks l [] = l
  checks l (now ∷ times) = checks ((check l now).1) times

module _ {W : Type 0} ⦃fl : Floating W⦄ (laws : IsArithmetic W) where
  full-IsValid :
      (rate burst : W) (now : Timespec)
      → fl.le rate fl.zero_ || fl.le burst fl.zero_ ≡ false
      → rate ⩽ rate
      → burst ⩽ burst
      → IsValid (record {
        tokens = burst;
        capacity = burst;
        rate = rate;
        last_refill = now;
        dropped = 0;
        allowed = 0;
      })
  full-IsValid rate burst now e r b =
      let more_rate : fl.lt fl.zero_ rate ≡ true =
        ground (arith, laws.lt_is_not_ge fl.zero_ rate laws.zero_is_number r) in
      let more_burst : fl.lt fl.zero_ burst ≡ true =
        ground (arith, laws.lt_is_not_ge fl.zero_ burst laws.zero_is_number b) in
      record { some_left = laws.lt_gives_le _ _ more_burst; bounded = b; fills = more_rate }

  init-IsValid :
      (rate burst : W) (now : Timespec) {l : Limiter W}
      → init rate burst now ≡ some l
      → rate ⩽ rate
      → burst ⩽ burst
      → IsValid l
  unfolding init
  init-IsValid rate burst now {l = l} e r b =
      elim (Bool-cases (fl.le rate fl.zero_ || fl.le burst fl.zero_)) [
        | inl none_ ↦ absurd (ground (arith, e, none_))
        | inr good ↦
            subst IsValid (some-injective _ _ (rw good at e)) (full-IsValid rate burst now good r b)
      ]

  refilled-IsValid :
      (l : Limiter W) (now : Timespec) (more : W)
      → IsValid l
      → fl.zero_ ⩽ more
      → IsValid (record l {
        tokens = if fl.lt l.capacity more then l.capacity else more;
        last_refill = now;
      })
  refilled-IsValid l now more v h =
      let number = laws.right_number _ _ v.bounded in
      let number' = laws.right_number _ _ h in
      let fits : fl.lt l.capacity more ≡ not (fl.le more l.capacity) =
        laws.lt_is_not_ge l.capacity more number number' in
      elim (Bool-cases (fl.lt l.capacity more)) [
        | inl over ↦ rw over (record {
          some_left = laws.chain _ _ _ v.some_left v.bounded;
          bounded = number;
          fills = v.fills;
        })
        | inr under ↦
            rw under
              (record { some_left = h; bounded = ground (arith, fits, under); fills = v.fills })
      ]

  refill-IsValid : (l : Limiter W) (now : Timespec) → IsValid l → IsValid (refill l now)
  unfolding refill
  refill-IsValid l now v = elim (Bool-cases (fl.lt fl.zero_ (diff_sec now l.last_refill))) [
    | inl later ↦ rw later (
        refilled-IsValid l now _ v
          (laws.add_nonneg _ _ v.some_left (laws.mul_nonneg _ _ later v.fills)))
    | inr same ↦ rw same v
  ]

  take_token-IsValid : (l : Limiter W) → IsValid l → IsValid ((take_token l).1)
  unfolding take_token
  take_token-IsValid l v = elim (Bool-cases (fl.le fl.one l.tokens)) [
    | inl enough ↦ rw enough (record {
      some_left = laws.sub_nonneg l.tokens enough;
      bounded = laws.chain _ _ _ (laws.sub_le l.tokens enough) v.bounded;
      fills = v.fills;
    })
    | inr short ↦
        rw short (record { some_left = v.some_left; bounded = v.bounded; fills = v.fills })
  ]

  check-IsValid : (l : Limiter W) (now : Timespec) → IsValid l → IsValid ((check l now).1)
  unfolding check
  check-IsValid l now v = take_token-IsValid (refill l now) (refill-IsValid l now v)

  checks-IsValid : (times : List Timespec) (l : Limiter W) → IsValid l → IsValid (checks l times)
  checks-IsValid [] l v = v
  checks-IsValid (now ∷ times) l v = checks-IsValid times ((check l now).1) (check-IsValid l now v)

  -- Where `double` has the arithmetic of IEEE 754, a limiter that `ratelimit_init` of src/ratelimit.c
  -- made of two numbers has, after any calls of `ratelimit_check` at any times, no less than 0 tokens
  -- and no more than its capacity.
  pub checks-init :
      (rate burst : W) (now : Timespec) (times : List Timespec) {l : Limiter W}
      → init rate burst now ≡ some l
      → rate ⩽ rate
      → burst ⩽ burst
      → IsValid (checks l times)
  checks-init rate burst now times e r b =
      checks-IsValid times _ (init-IsValid rate burst now e r b)
