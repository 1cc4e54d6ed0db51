-- ===== src/Table/Slots.antt =====
-- Slot arrays: a slot that comes into use, one that is rewritten, and the pass that clears the
-- slots that have run out.
use mathlib.Core.List.Perm
use mathlib.Core.Option.{some-injective}
use pktsnare.Common.{
  ℕ, zero, suc, ◌+◌, ◌-◌, ◌≡◌, refl, ap, ◌∙◌, inl, inr, Bool-cases, Bool, true, false, not, ◌&&◌,
  List, [], ◌∷◌, Perm, some, arith, get_elem?, set, if◌then◌else◌, map,
}
use pktsnare.Common.Filter.{keep, count_if}

module _ {ℓ} {A : Type ℓ} where
  -- A slot that comes into use adds its entry to those in use.
  pub keep-set_new :
      (p : A → Bool) (xs : List A) (i : ℕ) (v : A) {x : A}
      → get_elem? xs i ≡ some x
      → p x ≡ false
      → p v ≡ true
      → Perm (keep p (set xs i v)) (v ∷ keep p xs)
  keep-set_new p [] i v e off on = cc
  keep-set_new p (x ∷ xs) zero v e off on =
      let off_x : p x ≡ false = ap p (some-injective _ _ e) ∙ off in rw (on, off_x) Perm.rfl
  keep-set_new p (x ∷ xs) (suc i) v e off on =
      let rest = keep-set_new p xs i v e off on in
      elim (Bool-cases (p x)) [
        | inl used ↦ rw used (Perm.trans (Perm.cons x rest) (Perm.swap v x (keep p xs)))
        | inr idle ↦ rw idle rest
      ]

  pub count_if-set_new :
      (p : A → Bool) (xs : List A) (i : ℕ) (v : A) {x : A}
      → get_elem? xs i ≡ some x
      → p x ≡ false
      → p v ≡ true
      → count_if p (set xs i v) ≡ count_if p xs + 1
  count_if-set_new p [] i v e off on = cc
  count_if-set_new p (x ∷ xs) zero v e off on = ground arith
  count_if-set_new p (x ∷ xs) (suc i) v e off on =
      ground (arith, count_if-set_new p xs i v e off on)

  -- A slot that stays in use keeps their number.
  pub count_if-set_same :
      (p : A → Bool) (xs : List A) (i : ℕ) (v : A) {x : A}
      → get_elem? xs i ≡ some x
      → p x ≡ p v
      → count_if p (set xs i v) ≡ count_if p xs
  count_if-set_same p [] i v e same = cc
  count_if-set_same p (x ∷ xs) zero v e same = ground arith
  count_if-set_same p (x ∷ xs) (suc i) v e same = ground (arith, count_if-set_same p xs i v e same)

-- `for (i = 0; i < N; i++) if (dead(&xs[i])) { clear(&xs[i]); n--; }`
module _ {ℓ} {A : Type ℓ} (dead : A → Bool) (clear : A → A) where
  unfoldable pub clear_dead : List A → ℕ → List A × ℕ
  clear_dead [] n = ([], n)
  clear_dead (x ∷ xs) n =
      let (ys, m) = clear_dead xs (if dead x then n - 1 else n) in
      ((if dead x then clear x else x) ∷ ys, m)

  -- The pass clears the dead slots and no others, and lowers the counter by their number.
  pub clear_dead_lem :
      (xs : List A) (n : ℕ)
      → clear_dead xs n ≡ (map (λ x. if dead x then clear x else x) xs, n - count_if dead xs)
  unfolding clear_dead
  clear_dead_lem [] n = ground arith
  clear_dead_lem (x ∷ xs) n = ground (arith, clear_dead_lem xs n, clear_dead_lem xs (n - 1))

  -- A cleared slot is out of use, so those in use that were not dead remain.
  pub keep-clear-dead :
      (p : A → Bool)
      → ((x : A) → p (clear x) ≡ false)
      → (xs : List A)
      → keep p (map (λ x. if dead x then clear x else x) xs) ≡ keep (λ x. p x && not (dead x)) xs
  keep-clear-dead p off [] = refl
  keep-clear-dead p off (x ∷ xs) = ground (arith, off x, keep-clear-dead p off xs)

  pub count_if-clear-dead :
      (p : A → Bool)
      → ((x : A) → p (clear x) ≡ false)
      → ((x : A) → dead x ≡ true → p x ≡ true)
      → (xs : List A)
      → count_if p (map (λ x. if dead x then clear x else x) xs) + count_if dead xs ≡ count_if p xs
  count_if-clear-dead p off used [] = omega arith
  count_if-clear-dead p off used (x ∷ xs) =
      ground (arith, off x, used x, count_if-clear-dead p off used xs)
