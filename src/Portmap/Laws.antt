-- ===== src/Portmap/Laws.antt =====
-- The keys of src/portmap.c, and its registrations and lookups.
use pktsnare.Common.{
  ℕ, ◌+◌, ◌≤◌, ◌<◌, ◌≡◌, refl, ap, ◌∙◌, ◌⊎◌, inl, inr, true, false, ◌&&◌, some, List, [], ◌∷◌, ◌++◌,
  arith, leb, ◌==◌, if◌then◌else◌, ==_refl, Bool-cases, Option-cases, length, set, take,
  length-append, length-set, modify-eq-set, take-set_end,
}
use mathlib.Core.Option
use mathlib.Core.Option.{some-injective}
use native.Mathlib.Numerals.{add-one}
use pktsnare.Common.Filter.{keep, count_if, keep-append}
use pktsnare.Common.Int.{success}
use pktsnare.Table.Scan.{scan, Fails, IsFirst, scan-Finds}
use pktsnare.Table.Find.{
  find, find-none, count-Fails, find-append_none, find-append_miss, find-at, find_single,
  find-set_other, find-set_first, count_if-set_at, Fails-take,
}
use pktsnare.Portmap.{Portmap, Entry, max_entries, is, cut, rename, entry, register, lookup}

abbrev pub live : Portmap → List Entry
live pm = take pm.count pm.entries

-- The count fits the array, and no key occurs twice.
pub record IsValid (pm : Portmap) : Type 0 where
  pub space : length pm.entries ≡ max_entries
  pub bounded : pm.count ≤ max_entries
  pub unique : (port proto : ℕ) → count_if (is port proto) (live pm) ≤ 1

-- What a lookup returns, in terms of the entries in use.
pub lookup-find :
    (pm : Portmap) (port proto : ℕ)
    → lookup pm port proto ≡ Option.map (λ e. e.name) (find (is port proto) (live pm))
unfolding lookup
lookup-find pm port proto = elim (Option-cases (scan (is port proto) pm.count pm.entries)) [
  | inl e ↦
      let f = rw e at (scan-Finds (is port proto) pm.count pm.entries) in
      rw (
        e,
        lookup,
        find-none (is port proto) (live pm) (Fails-take (is port proto) pm.count pm.entries f),
      )
  | inr (i, e) ↦
      let f = rw e at (scan-Finds (is port proto) pm.count pm.entries) in
      rw (
        e,
        lookup,
        f.1.at,
        find-at (is port proto) pm.count pm.entries i f.0 f.1.below f.1.at f.1.hit f.1.before,
      )
]

-- Two keys that differ are not both those of one entry.
is-other :
    (port proto port' proto' : ℕ) (e : Entry)
    → (port == port' && proto == proto') ≡ false
    → is port proto e ≡ true
    → is port' proto' e ≡ false
is-other port proto port' proto' e ne h = ground arith

is-own : (port proto : ℕ) (name : List ℕ) → is port proto (entry port proto name) ≡ true
is-own port proto name = ground (arith, ==_refl port, ==_refl proto)

-- The two ways in which a registration ends well.
abbrev renamed : Portmap → List ℕ → ℕ → Entry → Portmap
renamed pm name i e = record pm { entries = set pm.entries i (rename name e) }

abbrev added : Portmap → ℕ → ℕ → List ℕ → Portmap
added pm port proto name = record {
  entries = set pm.entries pm.count (entry port proto name);
  count = pm.count + 1;
}

register-cases :
    (pm : Portmap) (port proto : ℕ) (name : List ℕ)
    → pm.count < max_entries
    → ((i : ℕ) × (e : Entry) × IsFirst (is port proto) pm.count pm.entries i e
        × (register pm port proto name ≡ (success, renamed pm name i e)))
      ⊎ (Fails (is port proto) (live pm)
          × (register pm port proto name ≡ (success, added pm port proto name)))
unfolding register
register-cases pm port proto name h =
    let room : leb max_entries pm.count ≡ false = ground arith in
    elim (Option-cases (scan (is port proto) pm.count pm.entries)) [
      | inl e ↦
          let f = rw e at (scan-Finds (is port proto) pm.count pm.entries) in
          inr (Fails-take (is port proto) pm.count pm.entries f, rw (room, e))
      | inr (i, e) ↦
          let f = rw e at (scan-Finds (is port proto) pm.count pm.entries) in
          inl (i, f.0, f.1, rw (room, e, modify-eq-set pm.entries i (rename name) f.1.at))
    ]

live-added :
    (pm : Portmap) (e : Entry)
    → pm.count < length pm.entries
    → take (pm.count + 1) (set pm.entries pm.count e) ≡ live pm ++ e ∷ []
live-added pm e h = rw add-one (take-set_end pm.count pm.entries e h)

-- After a registration in a valid table that is not full, a lookup of the key returns the first 15
-- characters of the new name, and a lookup of any other key returns what it returned before.
pub lookup-register :
    (pm : Portmap) (port proto port' proto' : ℕ) (name : List ℕ)
    → IsValid pm
    → pm.count < max_entries
    → let (status, pm') = register pm port proto name in
      (status ≡ success)
      × (lookup pm' port' proto'
          ≡ (if port == port' && proto == proto' then some (cut name) else lookup pm port' proto'))
lookup-register pm port proto port' proto' name v h =
    elim (Bool-cases (port == port' && proto == proto')) [
      | inl same ↦
          let e1 : port ≡ port' = ground arith in
          let e2 : proto ≡ proto' = ground arith in
          rw (same, ← e1, ← e2)
            (elim (register-cases pm port proto name h) [
              | inl (i, e, f, r) ↦
                  rw
                    (
                      r,
                      lookup-find (renamed pm name i e) port proto,
                      find-set_first (is port proto) pm.count pm.entries i e (rename name e) f
                          f.hit,
                    )
                    (refl, refl)
              | inr (miss, r) ↦
                  rw
                    (
                      r,
                      lookup-find (added pm port proto name) port proto,
                      live-added pm (entry port proto name) (omega (arith, v.space)),
                      find-append_none (is port proto) (live pm) (entry port proto name ∷ []) miss,
                    )
                    (
                      refl,
                      ap (Option.map (λ e. e.name)) (
                          find_single (is port proto) (entry port proto name)
                            (is-own port proto name)),
                    )
            ])
      | inr differ ↦
          rw (differ, lookup-find pm port' proto')
            (elim (register-cases pm port proto name h) [
              | inl (i, e, f, r) ↦
                  let off = is-other port proto port' proto' e differ f.hit in
                  rw
                    (
                      r,
                      lookup-find (renamed pm name i e) port' proto',
                      find-set_other (is port' proto') pm.count pm.entries i e (rename name e) f.at
                          off off,
                    )
                    (refl, refl)
              | inr (miss, r) ↦
                  rw
                    (
                      r,
                      lookup-find (added pm port proto name) port' proto',
                      live-added pm (entry port proto name) (omega (arith, v.space)),
                      find-append_miss (is port' proto') (live pm) (entry port proto name) (
                          is-other port proto port' proto' (entry port proto name) differ
                            (is-own port proto name)),
                    )
                    (refl, refl)
            ])
    ]

unique-added :
    (pm : Portmap) (port proto a b : ℕ) (name : List ℕ)
    → IsValid pm
    → Fails (is port proto) (live pm)
    → count_if (is a b) (live pm ++ entry port proto name ∷ []) ≤ 1
unique-added pm port proto a b name v miss =
    let parts = keep-append (is a b) (live pm) (entry port proto name ∷ []) in
    let sum =
      length-append (keep (is a b) (live pm)) (keep (is a b) (entry port proto name ∷ [])) in
    elim (Bool-cases (port == a && proto == b)) [
      | inl same ↦
          let e1 : port ≡ a = ground arith in
          let e2 : proto ≡ b = ground arith in
          rw (parts, sum, same, ← e1, ← e2)
            (omega (arith, count-Fails (is port proto) (live pm) miss))
      | inr differ ↦ rw (parts, sum, differ) (omega (arith, v.unique a b))
    ]

-- A registration keeps a valid table valid, whatever it returns: its 64 slots, a count of at most
-- 64, and no key in use twice.
pub register-IsValid :
    (pm : Portmap) (port proto : ℕ) (name : List ℕ)
    → IsValid pm
    → IsValid (register pm port proto name).1
unfolding register
register-IsValid pm port proto name v = elim (Bool-cases (leb max_entries pm.count)) [
  | inl full ↦ rw full v
  | inr room ↦ elim (register-cases pm port proto name (ground arith)) [
    | inl (i, e, f, r) ↦ rw r (record {
      space = length-set pm.entries i (rename name e) ∙ v.space;
      bounded = v.bounded;
      unique = λ a b.
          rw (count_if-set_at (is a b) pm.count pm.entries i e (rename name e) f.at refl)
            (v.unique a b);
    })
    | inr (miss, r) ↦ rw r (record {
      space = length-set pm.entries pm.count (entry port proto name) ∙ v.space;
      bounded = ground arith;
      unique = λ a b.
          rw (live-added pm (entry port proto name) (ground (arith, v.space)))
            (unique-added pm port proto a b name v miss);
    })
  ]
]
