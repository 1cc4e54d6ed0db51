-- ===== src/Table/Packed.antt =====
-- Packed arrays: the loop that removes stale entries by moving the last entry into the gap.
use mathlib.Core.List.{perm_append_singleton}
use mathlib.Core.List.Perm
use pktsnare.Common.{
  ℕ, zero, suc, ◌+◌, ◌%◌, ◌^◌, ◌≤◌, ◌<◌, ◌≡◌, refl, sym, ◌∙◌, Bool, true, false, not, ◌&&◌, List,
  [], ◌∷◌, ◌++◌, Perm, none, some, arith, length, get_elem?, get_or, set, take, All, length-set,
  length-take, get_elem?-eq-get_or, take-set, take-suc, add64, if◌then◌else◌, Bool-cases,
  Option-cases, inl, inr, get_elem?-none,
}
use mathlib.Core.Option.{some-injective}
use native.Mathlib.Numerals.{add-one}
use pktsnare.Common.Filter.{keep, count_if, count_if-not, keep-Perm, length-Perm}

module _ {ℓ} {A : Type ℓ} where
  -- `xs[i] = xs[j];`
  unfoldable pub copy_slot : List A → ℕ → ℕ → List A
  copy_slot xs i j = elim (get_elem? xs j) [ none ↦ xs | some y ↦ set xs i y ]

  pub copy_slot-eq-set :
      (xs : List A) (i m : ℕ) (d : A) → m < length xs → copy_slot xs i m ≡ set xs i (get_or xs m d)
  unfolding copy_slot
  copy_slot-eq-set xs i m d h = rw (get_elem?-eq-get_or xs m d h, copy_slot)

  set-perm :
      (xs : List A) (i m : ℕ) (d : A)
      → i ≤ m
      → m < length xs
      → Perm (take (suc m) xs) (get_or xs i d ∷ take m (set xs i (get_or xs m d)))
  set-perm [] i m d h l = absurd (omega arith)
  set-perm (x ∷ xs) zero zero d h l = Perm.rfl
  set-perm (x ∷ xs) zero (suc m) d h l =
      Perm.cons x (
        rw (take-suc m xs d (omega arith), take)
          (perm_append_singleton (get_or xs m d) (take m xs)))
  set-perm (x ∷ xs) (suc i) zero d h l = absurd (omega arith)
  set-perm (x ∷ xs) (suc i) (suc m) d h l =
      Perm.trans (Perm.cons x (set-perm xs i m d (omega arith) (omega arith)))
        (Perm.swap (get_or xs i d) x _)

  -- Moving the last of the first `n` entries into slot `i` removes the entry of slot `i`.
  pub copy_slot-perm :
      (xs : List A) (i m : ℕ) (d : A)
      → i ≤ m
      → m < length xs
      → Perm (take (suc m) xs) (get_or xs i d ∷ take m (copy_slot xs i m))
  copy_slot-perm xs i m d h l = rw (copy_slot-eq-set xs i m d l) (set-perm xs i m d h l)

  pub length-copy_slot : (xs : List A) (i j : ℕ) → length (copy_slot xs i j) ≡ length xs
  unfolding copy_slot
  length-copy_slot xs i j =
      elim (get_elem? xs j)
        as (λ o. length (elim o [ none ↦ xs | some y ↦ set xs i y ]) ≡ length xs) [
          | none ↦ refl
          | some y ↦ length-set xs i y
        ]

  pub take-copy_slot :
      (n : ℕ) (xs : List A) (i j : ℕ) → n ≤ i → take n (copy_slot xs i j) ≡ take n xs
  unfolding copy_slot
  take-copy_slot n xs i j h =
      elim (get_elem? xs j)
        as (λ o. take n (elim o [ none ↦ xs | some y ↦ set xs i y ]) ≡ take n xs) [
          | none ↦ refl
          | some y ↦ take-set n xs i y h
        ]

-- `while (i < n) { if (stale(&xs[i])) { if (counted(&xs[i])) s++; xs[i] = xs[--n]; } else i++; }`
-- Each round lowers `n - i` by one, so the loop runs for exactly `n - i` rounds: the argument
-- that falls. It returns the array, the new `n` and the 64-bit counter `s`.
module _ {ℓ} {A : Type ℓ} (stale counted : A → Bool) where
  unfoldable pub sweep : ℕ → ℕ → List A → ℕ → List A × ℕ × ℕ
  sweep zero i xs s = (xs, i, s)
  sweep (suc r) i xs s = elim (get_elem? xs i) [
    | none ↦ (xs, i + suc r, s)
    | some x ↦ elim (stale x) [
      | true ↦ sweep r i (copy_slot xs i (i + r)) (if counted x then add64 s 1 else s)
      | false ↦ sweep r (i + 1) xs s
    ]
  ]

  abbrev pub fresh : A → Bool
  fresh x = not (stale x)

  abbrev pub gone : A → Bool
  gone x = stale x && counted x

  -- What the loop has done, started on the first `n` entries of `xs` with the counter at `s`.
  pub record Swept (n : ℕ) (xs : List A) (s : ℕ) (out : List A × ℕ × ℕ) : Type ℓ where
    pub live : Perm (take out.1 out.0) (keep fresh (take n xs))
    pub tally : out.2 ≡ (s + count_if gone (take n xs)) % 2 ^ 64
    pub space : length out.0 ≡ length xs
    pub shrinks : out.1 ≤ n

  fresh_prefix : (ys : List A) → All (λ x. stale x ≡ false) ys → keep fresh ys ≡ ys
  fresh_prefix [] h = refl
  fresh_prefix (y ∷ ys) h = ground (arith, fresh_prefix ys h.1)

  none_gone : (ys : List A) → All (λ x. stale x ≡ false) ys → count_if gone ys ≡ 0
  none_gone [] h = refl
  none_gone (y ∷ ys) h = ground (arith, none_gone ys h.1)

  All-snoc :
      (ys : List A) (y : A)
      → All (λ x. stale x ≡ false) ys
      → stale y ≡ false
      → All (λ x. stale x ≡ false) (ys ++ y ∷ [])
  All-snoc [] y h e = (e, tt)
  All-snoc (z ∷ ys) y h e = (h.0, All-snoc ys y h.1 e)

  -- A round that removes the stale entry `x` of slot `i`.
  drop-Swept :
      (m i s : ℕ) (xs : List A) (x : A) {out : List A × ℕ × ℕ}
      → i ≤ m
      → m < length xs
      → get_or xs i x ≡ x
      → stale x ≡ true
      → s < 2 ^ 64
      → Swept m (copy_slot xs i m) (if counted x then add64 s 1 else s) out
      → Swept (suc m) xs s out
  drop-Swept m i s xs x {out} h l e t b w = record {
    live = Perm.trans w.live (Perm.symm (fresh_out removed_fresh));
    tally = ground (arith, w.tally, length-Perm removed_gone);
    space = w.space ∙ length-copy_slot xs i m;
    shrinks = omega (arith, w.shrinks);
  }
    where
      removed : Perm (take (suc m) xs) (x ∷ take m (copy_slot xs i m))
      removed = rw e at (copy_slot-perm xs i m x h l)

      removed_fresh :
          Perm (keep fresh (take (suc m) xs)) (keep fresh (x ∷ take m (copy_slot xs i m)))
      removed_fresh = keep-Perm fresh removed

      fresh_out :
          Perm (keep fresh (take (suc m) xs)) (keep fresh (x ∷ take m (copy_slot xs i m)))
          → Perm (keep fresh (take (suc m) xs)) (keep fresh (take m (copy_slot xs i m)))
      fresh_out p = rw t at p

      removed_gone : Perm (keep gone (take (suc m) xs)) (keep gone (x ∷ take m (copy_slot xs i m)))
      removed_gone = keep-Perm gone removed

  sweep-Swept :
      (r i n s : ℕ) (xs : List A)
      → i + r ≡ n
      → n ≤ length xs
      → s < 2 ^ 64
      → All (λ x. stale x ≡ false) (take i xs)
      → Swept n xs s (sweep r i xs s)
  unfolding sweep
  sweep-Swept zero i n s xs e h b kept =
      let e' : i ≡ n = omega arith in
      rw (← e') (record {
        live = rw (fresh_prefix (take i xs) kept) Perm.rfl;
        tally = omega (arith, none_gone (take i xs) kept);
        space = refl;
        shrinks = omega arith;
      })
  sweep-Swept (suc r) i n s xs e h b kept = elim (Option-cases (get_elem? xs i)) [
    | inl empty ↦ absurd (omega (arith, get_elem?-none xs i empty))
    | inr (x, at_i) ↦ elim (Bool-cases (stale x)) [
      | inl old ↦
          rw (at_i, sweep)
            (rw (old, sweep)
              (rw (← last) (
                drop-Swept (i + r) i s xs x (omega arith) (omega arith) (here x at_i) old b (
                  sweep-Swept r i (i + r) (if counted x then add64 s 1 else s)
                    (copy_slot xs i (i + r)) refl (omega (arith, length-copy_slot xs i (i + r)))
                    (ground arith) (rw (take-copy_slot i xs i (i + r) (omega arith)) kept)))))
      | inr young ↦
          rw (at_i, sweep)
            (rw (young, sweep)
              (sweep-Swept r (i + 1) n s xs (omega arith) h b (extended x at_i young)))
    ]
  ]
    where
      last : suc (i + r) ≡ n
      last = omega arith

      here : (x : A) → get_elem? xs i ≡ some x → get_or xs i x ≡ x
      here x at_i = some-injective _ _ (sym (get_elem?-eq-get_or xs i x (omega arith)) ∙ at_i)

      extended :
          (x : A)
          → get_elem? xs i ≡ some x
          → stale x ≡ false
          → All (λ x. stale x ≡ false) (take (i + 1) xs)
      extended x at_i young =
          rw (add-one, take-suc i xs x (omega arith), here x at_i)
            (All-snoc (take i xs) x kept young)

-- The loop from the start keeps the fresh entries, each as often as before, and no others.
pub sweep_lem {ℓ} :
    {A : Type ℓ} (stale counted : A → Bool) (n s : ℕ) (xs : List A)
    → n ≤ length xs
    → s < 2 ^ 64
    → Swept stale counted n xs s (sweep stale counted n 0 xs s)
sweep_lem stale counted n s xs h b = sweep-Swept stale counted n 0 n s xs (omega arith) h b tt

-- The new count is the old one less the stale entries.
pub count-Swept {ℓ} :
    {A : Type ℓ} (stale counted : A → Bool) (n s : ℕ) (xs : List A) {out : List A × ℕ × ℕ}
    → Swept stale counted n xs s out
    → n ≤ length xs
    → out.1 + count_if stale (take n xs) ≡ n
count-Swept stale counted n s xs {out} w h = omega (
  arith,
  w.shrinks,
  w.space,
  length-Perm w.live,
  length-take out.1 out.0,
  length-take n xs,
  count_if-not stale (take n xs),
)

-- Where every removal is counted.
pub gone_all {ℓ} :
    {A : Type ℓ} (stale : A → Bool) (xs : List A)
    → count_if (gone stale (λ x. true)) xs ≡ count_if stale xs
gone_all stale [] = refl
gone_all stale (x ∷ xs) = ground (arith, gone_all stale xs)
