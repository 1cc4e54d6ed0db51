-- ===== src/Portmap/Removal.antt =====
-- Removal in src/portmap.c.
use pktsnare.Common.{
  ℕ, suc, ◌-◌, ◌≤◌, ◌<◌, ◌≡◌, refl, sym, ap, ◌∙◌, ◌↔◌, inl, inr, Bool, none, some, ◌∷◌, Perm, arith,
  Option-cases, length, get_elem?, get_or, get_elem?-eq-get_or,
}
use mathlib.Core.Option
use mathlib.Core.Option.{some-injective}
use pktsnare.Common.Filter.{count_if, keep-Perm, length-Perm}
use pktsnare.Common.Int.{failure}
use pktsnare.Table.Scan.{scan, IsFirst, scan-Finds}
use pktsnare.Table.Packed.{copy_slot, copy_slot-perm, length-copy_slot}
use pktsnare.Table.Find.{find-count_none, find-at}
use pktsnare.Portmap.{Portmap, Entry, max_entries, is, lookup, remove}
use pktsnare.Portmap.Laws.{live, IsValid, lookup-find}

-- The table without the first entry of the key.
abbrev removed : Portmap → ℕ → Portmap
removed pm i = record { entries = copy_slot pm.entries i (pm.count - 1); count = pm.count - 1 }

count_if-removed :
    (pm : Portmap) (i : ℕ) (e : Entry) (p : Entry → Bool)
    → length pm.entries ≡ max_entries
    → pm.count ≤ max_entries
    → i < pm.count
    → get_elem? pm.entries i ≡ some e
    → count_if p (live pm) ≡ count_if p (e ∷ live (removed pm i))
count_if-removed pm i e p space bounded below at = length-Perm (keep-Perm p moved)
  where
    here : get_or pm.entries i e ≡ e
    here = some-injective _ _ (sym (get_elem?-eq-get_or pm.entries i e (omega arith)) ∙ at)

    last : suc (pm.count - 1) ≡ pm.count
    last = omega arith

    moved : Perm (live pm) (e ∷ live (removed pm i))
    moved =
        rw (here, last) at
          (copy_slot-perm pm.entries i (pm.count - 1) e (omega arith) (omega arith))

lookup-missing :
    (pm : Portmap) (port proto : ℕ)
    → scan (is port proto) pm.count pm.entries ≡ none
    → lookup pm port proto ≡ none
unfolding lookup
lookup-missing pm port proto e = rw (e, lookup) refl

-- Removal from a valid table leaves a valid table in which a lookup of the key finds nothing; it
-- fails exactly where the key had no name.
pub lookup-remove :
    (pm : Portmap) (port proto : ℕ)
    → IsValid pm
    → let (status, pm') = remove pm port proto in
      IsValid pm'
      × (lookup pm' port proto ≡ none)
      × ((status ≡ failure) ↔ (lookup pm port proto ≡ none))
unfolding remove
lookup-remove pm port proto v = elim (Option-cases (scan (is port proto) pm.count pm.entries)) [
  | inl e ↦
      let nothing : lookup pm port proto ≡ none = lookup-missing pm port proto e in
      rw (e, remove) (v, nothing, (λ h. nothing, λ h. refl))
  | inr (i, e) ↦
      let f = rw e at (scan-Finds (is port proto) pm.count pm.entries) in
      let found : lookup pm port proto ≡ some (f.0.name) =
        lookup-find pm port proto
        ∙ ap (Option.map (λ x. x.name)) (
            find-at (is port proto) pm.count pm.entries i f.0 f.1.below f.1.at f.1.hit
              f.1.before) in
      rw (e, remove)
        (shrunk i f.0 f.1, gone i f.0 f.1, (λ h. absurd (cc h), λ h. absurd (cc (h, found))))
]
  where
    shrunk :
        (i : ℕ) (e : Entry)
        → IsFirst (is port proto) pm.count pm.entries i e
        → IsValid (removed pm i)
    shrunk i e f = record {
      space = length-copy_slot pm.entries i (pm.count - 1) ∙ v.space;
      bounded = omega (arith, v.bounded);
      unique = λ a b.
          let n = count_if-removed pm i e (is a b) v.space v.bounded f.below f.at in
          ground (arith, n, v.unique a b);
    }

    gone :
        (i : ℕ) (e : Entry)
        → IsFirst (is port proto) pm.count pm.entries i e
        → lookup (removed pm i) port proto ≡ none
    gone i e f =
        let n = count_if-removed pm i e (is port proto) v.space v.bounded f.below f.at in
        let one = v.unique port proto in
        let zero_left : count_if (is port proto) (live (removed pm i)) ≡ 0 =
          ground (arith, n, one, f.hit) in
        rw
          (
            lookup-find (removed pm i) port proto,
            find-count_none (is port proto) (live (removed pm i)) zero_left,
          )
          refl
