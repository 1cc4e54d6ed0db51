-- ===== src/Common/Filter.antt =====
-- The elements of a list that pass a Boolean test, in order, and how reordering acts on them.
use Prim.Native.Nat.{ℕ, suc, ◌+◌, ◌≤◌}
use mathlib.Core.Path.{◌≡◌, refl, ap, ◌∙◌}
use mathlib.Core.Bool.{Bool-discrete, Bool, true, not}
use mathlib.Core.List.{List, [], ◌∷◌, ◌++◌, Perm, Permᴰ, filter}
use mathlib.Core.List.Perm
use mathlib.Core.Logic.{∥∥₁_elim}
use native.Mathlib.Nat.{ℕ_set}
use native.Mathlib.Omega.{arith}
use pktsnare.Common.Tests.{if◌then◌else◌}
use pktsnare.Common.Lists.{length, All}

module _ {ℓ} {A : Type ℓ} where
  abbrev pub keep : (A → Bool) → List A → List A
  keep p [] = []
  keep p (x ∷ xs) = if p x then x ∷ keep p xs else keep p xs

  abbrev pub count_if : (A → Bool) → List A → ℕ
  count_if p xs = length (keep p xs)

  pub keep-append : (p : A → Bool) (xs ys : List A) → keep p (xs ++ ys) ≡ keep p xs ++ keep p ys
  keep-append p [] ys = refl
  keep-append p (x ∷ xs) ys = ground (arith, keep-append p xs ys)

  pub keep-All : (p : A → Bool) (xs : List A) → All (λ x. p x ≡ true) xs → keep p xs ≡ xs
  keep-All p [] h = refl
  keep-All p (x ∷ xs) h = ground (arith, keep-All p xs h.1)

  pub length-keep-le : (p : A → Bool) (xs : List A) → count_if p xs ≤ length xs
  length-keep-le p [] = omega arith
  length-keep-le p (x ∷ xs) = ground (arith, length-keep-le p xs)

  -- A test and its negation split a list.
  pub count_if-not :
      (p : A → Bool) (xs : List A) → count_if p xs + count_if (λ x. not (p x)) xs ≡ length xs
  count_if-not p [] = omega arith
  count_if-not p (x ∷ xs) = ground (arith, count_if-not p xs)

  length-Permᴰ : {xs ys : List A} → Permᴰ xs ys → length xs ≡ length ys
  length-Permᴰ Permᴰ.nil = refl
  length-Permᴰ (Permᴰ.cons e r) = ap suc (length-Permᴰ r)
  length-Permᴰ (Permᴰ.swap e f) = refl
  length-Permᴰ (Permᴰ.trans r s) = length-Permᴰ r ∙ length-Permᴰ s

  pub length-Perm : {xs ys : List A} → Perm xs ys → length xs ≡ length ys
  length-Perm h = ∥∥₁_elim h (ℕ_set _ _) length-Permᴰ

  -- `keep` is the library's `filter` at a decision.
  keep-eq-filter :
      (p : A → Bool) (xs : List A) → keep p xs ≡ filter (λ x. Bool-discrete (p x) true) xs
  keep-eq-filter p [] = refl
  keep-eq-filter p (x ∷ xs) = ground (arith, keep-eq-filter p xs)

  -- Reordering a list reorders what passes.
  pub keep-Perm : (p : A → Bool) {xs ys : List A} → Perm xs ys → Perm (keep p xs) (keep p ys)
  keep-Perm p {xs} {ys} h =
      rw (keep-eq-filter p xs, keep-eq-filter p ys) (Perm.filter (λ x. Bool-discrete (p x) true) h)
