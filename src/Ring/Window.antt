-- ===== src/Ring/Window.antt =====
-- The entries in use of a circular array: `n` of them from index `h` on, going round at `cap`.
use native.Mathlib.Nat.{mod-eq_of_lt, add-zero}
use pktsnare.Common.{
  ℕ, zero, suc, ◌+◌, ◌-◌, ◌%◌, ◌<◌, ◌≡◌, ◌≢◌, refl, ap, ap₂, List, [], ◌∷◌, ◌++◌, arith, length,
  get_or, set, get_or-set_self, get_or-set_ne,
}
use pktsnare.Common.Modular.{around-ne, step_around}

module _ {ℓ} {A : Type ℓ} (d : A) where
  abbrev pub window : List A → ℕ → ℕ → ℕ → List A
  window buf cap h zero = []
  window buf cap h (suc n) = get_or buf h d ∷ window buf cap ((h + 1) % cap) n

  pub length-window : (buf : List A) (cap h n : ℕ) → length (window buf cap h n) ≡ n
  length-window buf cap h zero = refl
  length-window buf cap h (suc n) = ap suc (length-window buf cap ((h + 1) % cap) n)

  -- The code tests `count == 0` and counts down, `window` matches on `suc`.
  pub window_of_ne_zero :
      (buf : List A) (cap h n : ℕ)
      → n ≢ 0
      → window buf cap h n ≡ get_or buf h d ∷ window buf cap ((h + 1) % cap) (n - 1)
  window_of_ne_zero buf cap h zero p = absurd (p refl)
  window_of_ne_zero buf cap h (suc n) p = ap (λ k. window buf cap h (suc k)) (omega arith)

-- A write behind the last entry in use makes the array hold that entry too.
pub window-set {ℓ} :
    {A : Type ℓ} (d : A) (buf : List A) (cap n h i : ℕ) (v : A)
    → length buf ≡ cap
    → h < cap
    → n < cap
    → i ≡ (h + n) % cap
    → window d (set buf i v) cap h (suc n) ≡ window d buf cap h n ++ v ∷ []
window-set d buf cap zero h i v l hh hn e =
    rw (e, add-zero, mod-eq_of_lt hh, get_or-set_self buf h v d (omega arith))
window-set d buf cap (suc n) h i v l hh hn e =
    ap₂ ◌∷◌ (get_or-set_ne buf v d (rw e (around-ne cap h n hh hn))) (
      window-set d buf cap n ((h + 1) % cap) i v l (omega arith) (omega arith)
        (step_around cap h n i e))
