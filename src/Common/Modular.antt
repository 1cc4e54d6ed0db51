-- ===== src/Common/Modular.antt =====
-- Steps round a circle of `n` places, by the remainder.
use native.Mathlib.Nat.{mod-add-mod, mod-eq_of_lt, mod-eq-sub-mod}
use native.Mathlib.Decide.{dec_lt}
use native.Mathlib.Omega.{arith}
use Prim.Native.Nat.{ℕ, zero, suc, ◌+◌, ◌-◌, ◌%◌, ◌<◌}
use mathlib.Core.Path.{◌≡◌, ap, ◌∙◌}
use mathlib.Core.Logic.{◌≢◌}

-- Fewer than `n` steps do not come back to the start.
pub around-ne : (n h k : ℕ) → h < n → suc k < n → (h + suc k) % n ≢ h
around-ne n h k hh hk = elim (dec_lt (h + suc k) n) [
  | yes p ↦ omega (arith, mod-eq_of_lt p)
  | no p ↦ omega (
    arith,
    mod-eq-sub-mod {n = h + suc k} {m = n} (omega arith),
    mod-eq_of_lt {n = h + suc k - n} {m = n} (omega arith),
  )
]

pub full_turn : (n h : ℕ) → h < n → (h + n) % n ≡ h
full_turn n h b = grind arith

pub next_mod : (a n : ℕ) → (a % n + 1) % n ≡ (a + 1) % n
next_mod a n = mod-add-mod a n 1

pub step_around : (n h k i : ℕ) → i ≡ (h + suc k) % n → i ≡ ((h + 1) % n + k) % n
step_around n h k i e = e ∙ rw mod-add-mod (ap (λ m. m % n) (omega arith))

pub step_back : (n h k i : ℕ) → k ≢ 0 → i ≡ (h + k) % n → i ≡ ((h + 1) % n + (k - 1)) % n
step_back n h zero i p e = absurd (omega arith)
step_back n h (suc k) i p e = step_around n h k i e ∙ ap (λ m. ((h + 1) % n + m) % n) (omega arith)

-- Different numbers of steps below `n` end at different places.
pub places-ne : (n h j k : ℕ) → h < n → j < k → k < n → (h + k) % n ≢ (h + j) % n
places-ne n h j k hh jk kn e =
    around-ne n ((h + j) % n) (k - j - 1) (omega arith) (omega arith)
      (mod-add-mod (h + j) n (suc (k - j - 1)) ∙ ap (λ m. m % n) (omega arith) ∙ e)

-- Every place is reached.
pub place_of : (n h i : ℕ) → h < n → i < n → (k : ℕ) × (k < n) × ((h + k) % n ≡ i)
place_of n h i hh hi = elim (dec_lt i h) [
  | yes p ↦ (i + n - h, omega arith, ap (λ m. m % n) (at_end p) ∙ full_turn n i hi)
  | no p ↦ (i - h, omega arith, ap (λ m. m % n) (at_once p) ∙ mod-eq_of_lt hi)
]
  where
    at_end : i < h → h + (i + n - h) ≡ i + n
    at_end p = omega arith

    at_once : ¬ (i < h) → h + (i - h) ≡ i
    at_once p = omega arith
