-- ===== src/Table/Scan.antt =====
-- The search loop of the tables: the first of the first `n` entries that passes a test.
use mathlib.Core.Option
use native.Mathlib.Numerals.{add-one}
use pktsnare.Common.{
  ℕ, zero, suc, ◌<◌, ◌≡◌, refl, Bool, true, false, List, [], ◌∷◌, Option, none, some, arith, inl,
  inr, ap, set, ◌+◌, length, get_elem?, take, All, if◌then◌else◌, Bool-cases,
}

module _ {ℓ} {A : Type ℓ} where
  -- `for (int i = 0; i < n; i++) if (p(&xs[i])) return i;`
  unfoldable pub scan : (A → Bool) → ℕ → List A → Option ℕ
  scan p zero xs = none
  scan p (suc n) [] = none
  scan p (suc n) (x ∷ xs) = if p x then some 0 else Option.map suc (scan p n xs)

  abbrev pub Fails : (A → Bool) → List A → Type 0
  Fails p = All (λ y. p y ≡ false)

  -- `i` is the first index that passes, below the bound and inside the array, and holds `x`.
  pub record IsFirst (p : A → Bool) (n : ℕ) (xs : List A) (i : ℕ) (x : A) : Type ℓ where
    pub at : get_elem? xs i ≡ some x
    pub hit : p x ≡ true
    pub below : i < n
    pub inside : i < length xs
    pub before : Fails p (take i xs)

  abbrev pub Finds : (A → Bool) → ℕ → List A → Option ℕ → Type ℓ
  Finds p n xs none = (i : ℕ) (x : A) → i < n → get_elem? xs i ≡ some x → p x ≡ false
  Finds p n xs (some i) = (x : A) × IsFirst p n xs i x

  later_none :
      (p : A → Bool) (n : ℕ) (x : A) (xs : List A)
      → p x ≡ false
      → Finds p n xs none
      → Finds p (suc n) (x ∷ xs) none
  later_none p n x xs miss f zero y h e = ground arith
  later_none p n x xs miss f (suc i) y h e = f i y (omega arith) e

  later :
      (p : A → Bool) (n : ℕ) (x : A) (xs : List A) (o : Option ℕ)
      → p x ≡ false
      → Finds p n xs o
      → Finds p (suc n) (x ∷ xs) (Option.map suc o)
  later p n x xs none miss f = later_none p n x xs miss f
  later p n x xs (some i) miss (y, f) = (
    y,
    record {
      at = f.at;
      hit = f.hit;
      below = omega (arith, f.below);
      inside = omega (arith, f.inside);
      before = (miss, f.before);
    },
  )

  -- The loop finds the first entry that passes, or none does.
  pub scan-Finds : (p : A → Bool) (n : ℕ) (xs : List A) → Finds p n xs (scan p n xs)
  unfolding scan
  scan-Finds p zero xs = λ i x h e. absurd (omega arith)
  scan-Finds p (suc n) [] = λ i x h e. cc
  scan-Finds p (suc n) (x ∷ xs) = elim (Bool-cases (p x)) [
    | inl hit ↦
        rw hit (
          x,
          record { at = refl; hit = hit; below = omega arith; inside = omega arith; before = tt },
        )
    | inr miss ↦ rw miss (later p n x xs (scan p n xs) miss (scan-Finds p n xs))
  ]

  -- Where none of the first `n` entries passes, one written behind them that does is found there.
  scan-set-suc :
      (p : A → Bool) (n : ℕ) (xs : List A) (v : A)
      → Fails p (take n xs)
      → n < length xs
      → p v ≡ true
      → scan p (suc n) (set xs n v) ≡ some n
  unfolding scan
  scan-set-suc p n [] v h l e = absurd (omega arith)
  scan-set-suc p zero (x ∷ xs) v h l e = rw e
  scan-set-suc p (suc n) (x ∷ xs) v h l e =
      rw (h.0) (ap (Option.map suc) (scan-set-suc p n xs v h.1 (omega arith) e))

  pub scan-set_end :
      (p : A → Bool) (n : ℕ) (xs : List A) (v : A)
      → Fails p (take n xs)
      → n < length xs
      → p v ≡ true
      → scan p (n + 1) (set xs n v) ≡ some n
  scan-set_end p n xs v h l e = rw add-one (scan-set-suc p n xs v h l e)
