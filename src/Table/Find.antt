-- ===== src/Table/Find.antt =====
-- What a search of a table returns, stated without the index at which the loop stops.
use pktsnare.Common.{
  ℕ, zero, suc, ◌<◌, ◌≡◌, refl, Bool, true, false, Option, none, some, List, [], ◌∷◌, ◌++◌, arith,
  if◌then◌else◌, get_elem?, set, take, get_elem?-set_self, take-set,
}
use pktsnare.Common.Filter.{count_if}
use pktsnare.Table.Scan.{Fails, IsFirst}

module _ {ℓ} {A : Type ℓ} where
  -- The first element that passes.
  unfoldable pub find : (A → Bool) → List A → Option A
  find p [] = none
  find p (x ∷ xs) = if p x then some x else find p xs

  pub find-none : (p : A → Bool) (xs : List A) → Fails p xs → find p xs ≡ none
  unfolding find
  find-none p [] h = refl
  find-none p (x ∷ xs) h = rw (h.0) (find-none p xs h.1)

  pub find_single : (p : A → Bool) (x : A) → p x ≡ true → find p (x ∷ []) ≡ some x
  unfolding find
  find_single p x h = rw h refl

  pub find-count_none : (p : A → Bool) (xs : List A) → count_if p xs ≡ 0 → find p xs ≡ none
  unfolding find
  find-count_none p [] h = refl
  find-count_none p (x ∷ xs) h = ground (arith, find-count_none p xs)

  pub count-Fails : (p : A → Bool) (xs : List A) → Fails p xs → count_if p xs ≡ 0
  count-Fails p [] h = refl
  count-Fails p (x ∷ xs) h = rw (h.0) (count-Fails p xs h.1)

  pub find-append_none :
      (p : A → Bool) (xs ys : List A) → Fails p xs → find p (xs ++ ys) ≡ find p ys
  unfolding find
  find-append_none p [] ys h = refl
  find-append_none p (x ∷ xs) ys h = rw (h.0) (find-append_none p xs ys h.1)

  -- An element that fails makes no difference at the end.
  pub find-append_miss :
      (p : A → Bool) (xs : List A) (y : A) → p y ≡ false → find p (xs ++ y ∷ []) ≡ find p xs
  unfolding find
  find-append_miss p [] y h = rw h refl
  find-append_miss p (x ∷ xs) y h = ground (arith, find-append_miss p xs y h)

  pub find-at :
      (p : A → Bool) (n : ℕ) (xs : List A) (i : ℕ) (x : A)
      → i < n
      → get_elem? xs i ≡ some x
      → p x ≡ true
      → Fails p (take i xs)
      → find p (take n xs) ≡ some x
  unfolding find
  find-at p zero xs i x l e h f = absurd (omega arith)
  find-at p (suc n) [] i x l e h f = cc
  find-at p (suc n) (y ∷ xs) zero x l e h f = ground arith
  find-at p (suc n) (y ∷ xs) (suc i) x l e h f = rw (f.0) (find-at p n xs i x (omega arith) e h f.1)

  -- A change of an element that fails before and after makes no difference.
  pub find-set_other :
      (p : A → Bool) (n : ℕ) (xs : List A) (i : ℕ) (x v : A)
      → get_elem? xs i ≡ some x
      → p x ≡ false
      → p v ≡ false
      → find p (take n (set xs i v)) ≡ find p (take n xs)
  unfolding find
  find-set_other p zero xs i x v e h k = refl
  find-set_other p (suc n) [] i x v e h k = refl
  find-set_other p (suc n) (y ∷ xs) zero x v e h k = ground arith
  find-set_other p (suc n) (y ∷ xs) (suc i) x v e h k =
      ground (arith, find-set_other p n xs i x v e h k)

  pub take-set_before : (xs : List A) (i : ℕ) (v : A) → take i (set xs i v) ≡ take i xs
  take-set_before xs i v = take-set i xs i v (omega arith)

  -- The first element that passes, replaced by one that passes, is found in its place.
  pub find-set_first :
      (p : A → Bool) (n : ℕ) (xs : List A) (i : ℕ) (x v : A)
      → IsFirst p n xs i x
      → p v ≡ true
      → find p (take n (set xs i v)) ≡ some v
  find-set_first p n xs i x v f h =
      find-at p n (set xs i v) i v f.below (get_elem?-set_self xs i v f.inside) h
        (rw (take-set_before xs i v) f.before)

  pub count_if-set_at :
      (p : A → Bool) (n : ℕ) (xs : List A) (i : ℕ) (x v : A)
      → get_elem? xs i ≡ some x
      → p x ≡ p v
      → count_if p (take n (set xs i v)) ≡ count_if p (take n xs)
  count_if-set_at p zero xs i x v e h = refl
  count_if-set_at p (suc n) [] i x v e h = refl
  count_if-set_at p (suc n) (y ∷ xs) zero x v e h = ground arith
  count_if-set_at p (suc n) (y ∷ xs) (suc i) x v e h =
      ground (arith, count_if-set_at p n xs i x v e h)

  -- No element below the bound passes, where the search fails.
  pub Fails-take :
      (p : A → Bool) (n : ℕ) (xs : List A)
      → ((i : ℕ) (x : A) → i < n → get_elem? xs i ≡ some x → p x ≡ false)
      → Fails p (take n xs)
  Fails-take p zero xs h = tt
  Fails-take p (suc n) [] h = tt
  Fails-take p (suc n) (x ∷ xs) h =
      (h 0 x (omega arith) refl, Fails-take p n xs λ i y l e. h (suc i) y (omega arith) e)
