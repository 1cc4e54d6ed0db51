-- ===== src/Ethtype/Names.antt =====
-- The two directions of src/ethtype.c, from a number to its name and back.
use pktsnare.Common.{
  ℕ, ◌≡◌, refl, sym, ap, subst, ◌∙◌, inl, inr, true, false, some, List, [], ◌∷◌, map, arith, ◌==◌,
  Bool-cases, All,
}
use mathlib.Core.Option.{some-injective}
use pktsnare.Common.Text.{same, eq_of_same}
use pktsnare.Ethtype.{table, name_in, name, same_case, lower, lookup_in, lookup}

Others : List ℕ → List (ℕ × List ℕ) → Type 0
Others s = All (λ (e : ℕ × List ℕ). same_case s e.1 ≡ false)

Distinct : List (ℕ × List ℕ) → Type 0
Distinct [] = Unit
Distinct ((code, s) ∷ es) = Others s es × Distinct es

table-Distinct : Distinct table
unfolding Distinct Others
table-Distinct = ground arith

name_in-Others :
    (n : ℕ) (s t u : List ℕ) (es : List (ℕ × List ℕ))
    → Others s es
    → name_in n es ≡ some t
    → same_case t u ≡ true
    → same_case s u ≡ false
unfolding name_in Others
name_in-Others n s t u [] h e f = cc
name_in-Others n s t u ((code, v) ∷ es) h e f = elim (Bool-cases (code == n)) [
  | inl here ↦
      let named : v ≡ t = some-injective _ _ (rw here at e) in
      let folded : map lower v ≡ map lower u =
        ap (map lower) named ∙ eq_of_same (map lower t) (map lower u) f in
      subst (λ w. same (map lower s) w ≡ false) folded h.0
  | inr later ↦ name_in-Others n s t u es h.1 (rw later at e) f
]

lookup_in-name_in :
    (n : ℕ) (t u : List ℕ) (es : List (ℕ × List ℕ))
    → Distinct es
    → name_in n es ≡ some t
    → same_case t u ≡ true
    → lookup_in u es ≡ some n
unfolding name_in lookup_in Distinct
lookup_in-name_in n t u [] d e f = cc
lookup_in-name_in n t u ((code, v) ∷ es) d e f = elim (Bool-cases (code == n)) [
  | inl here ↦
      let named : t ≡ v = sym (some-injective _ _ (rw here at e)) in
      let hit : same_case v u ≡ true = rw named at f in rw hit (ground (arith, here))
  | inr later ↦
      let skip = name_in-Others n v t u es d.0 (rw later at e) f in
      rw skip (lookup_in-name_in n t u es d.1 (rw later at e) f)
]

-- For an EtherType that `ethtype_name` of src/ethtype.c has a name for, `ethtype_lookup` gives the
-- EtherType for that name, in whatever letter case it is written.
pub lookup-name :
    (n : ℕ) (s u : List ℕ)
    → name_in n table ≡ some s
    → same_case (name n) u ≡ true
    → (name n ≡ s) × (lookup u ≡ some n)
unfolding name
lookup-name n s u e f = (named, lookup_in-name_in n s u table table-Distinct e (rw named at f))
  where
    named : name n ≡ s
    named = rw (e, name) refl
