-- ===== src/Common/Reads.antt =====
-- Reads from a buffer through a pointer, which is an offset into it. `none` is a read past the end of
-- the buffer. Also the numbers that bytes in network order stand for.
use Prim.Native.Nat.{ℕ, zero, suc, ◌+◌, ◌*◌, ◌^◌, ◌≤◌, ◌<◌, bit_or}
use mathlib.Core.Path.{◌≡◌, refl, sym, subst}
use mathlib.Core.Option.{Option, none, some, some-injective}
use mathlib.Core.List.{List, [], ◌∷◌}
use native.Mathlib.Omega.{arith}
use pktsnare.Common.Tests.{Option-cases}
use mathlib.Core.Logic.{inl, inr}
use pktsnare.Common.Lists.{length, get_elem?, get_elem?-none}

infixl 5 ◌>>=◌
unfoldable pub ◌>>=◌ {ℓ κ} : {A : Type ℓ} {B : Type κ} → Option A → (A → Option B) → Option B
none >>= f = none
some a >>= f = f a

unfoldable pub byte : List ℕ → ℕ → Option ℕ
byte buf i = get_elem? buf i

-- `n` bytes from an offset on, as `memcpy` reads them.
unfoldable pub span : List ℕ → ℕ → ℕ → Option (List ℕ)
span buf off zero = some []
span buf off (suc n) = do b ← byte buf off; bs ← span buf (off + 1) n; some (b ∷ bs)

-- `(hi << 8) | lo`
unfoldable pub be16 : ℕ → ℕ → ℕ
be16 hi lo = bit_or (hi * 2 ^ 8) lo

-- `(a << 24) | (b << 16) | (c << 8) | d`
unfoldable pub be32 : ℕ → ℕ → ℕ → ℕ → ℕ
be32 a b c d = bit_or (bit_or (bit_or (a * 2 ^ 24) (b * 2 ^ 16)) (c * 2 ^ 8)) d

-- A result that came without a read past the end, and what holds of it.
abbrev pub Returns {ℓ κ} : {A : Type ℓ} → Option A → (A → Type κ) → Type (ℓ ⊔ κ)
Returns {A = A} r P = (a : A) × (r ≡ some a) × P a

pub Returns-bind {ℓ κ μ ν} :
    {A : Type ℓ} {B : Type κ} {P : A → Type μ} {Q : B → Type ν} (m : Option A) (f : A → Option B)
    → Returns m P
    → ((a : A) → P a → Returns (f a) Q)
    → Returns (m >>= f) Q
unfolding ◌>>=◌
Returns-bind none f r k = absurd (cc (r.1))
Returns-bind {P = P} (some a) f r k = k a (subst P (some-injective _ _ (sym (r.1))) (r.2))

pub byte-Returns :
    (buf : List ℕ) (i : ℕ) → i < length buf → Returns (byte buf i) (λ b. byte buf i ≡ some b)
unfolding byte
byte-Returns buf i h = elim (Option-cases (get_elem? buf i)) [
  | inl e ↦ absurd (omega (arith, get_elem?-none buf i e))
  | inr (b, e) ↦ (b, e, e)
]

pub span-Returns :
    (buf : List ℕ) (off n : ℕ)
    → off + n ≤ length buf
    → Returns (span buf off n) (λ bs. length bs ≡ n)
unfolding span
span-Returns buf off zero h = ([], refl, refl)
span-Returns buf off (suc n) h =
    Returns-bind (byte buf off) _ (byte-Returns buf off (omega arith)) λ b hb.
      Returns-bind (span buf (off + 1) n) _ (span-Returns buf (off + 1) n (omega arith))
        λ bs hs. (b ∷ bs, refl, omega (arith, hs))
