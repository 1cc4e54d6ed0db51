-- ===== src/Fragtrack/Arrays.antt =====
-- The arrays of src/fragtrack.c keep their size.
use pktsnare.Common.{
  ℕ, zero, suc, ◌+◌, refl, ◌∙◌, inl, inr, Bool, not, [], ◌∷◌, List, leb, Bool-cases, Option-cases,
  All, get_or, get_elem?, length-set, All-get_elem?, All-set, All-replicate,
}
use pktsnare.Table.Packed.{sweep, copy_slot}
use pktsnare.Fragtrack.{
  Table, Entry, Key, zeroed, max_entries, max_frags, stale, expire, opened, find_entry, placed,
  is_covered, add_fragment, add_live, add, init,
}
use pktsnare.Fragtrack.Datagrams.{IsEntry}

module _ {ℓ κ} {A : Type ℓ} (P : A → Type κ) (stale_one counted : A → Bool) where
  copy_slot-All : (xs : List A) (i j : ℕ) → All P xs → All P (copy_slot xs i j)
  unfolding copy_slot
  copy_slot-All xs i j a = elim (Option-cases (get_elem? xs j)) [
    | inl e ↦ rw (e, copy_slot) a
    | inr (x, e) ↦ rw (e, copy_slot) (All-set P xs i x a (All-get_elem? P xs j a e))
  ]

  sweep-All :
      (r i : ℕ) (xs : List A) (s : ℕ) → All P xs → All P (sweep stale_one counted r i xs s).0
  unfolding sweep
  sweep-All zero i xs s a = a
  sweep-All (suc r) i xs s a = elim (Option-cases (get_elem? xs i)) [
    | inl e ↦ rw (e, sweep) a
    | inr (x, e) ↦ elim (Bool-cases (stale_one x)) [
      | inl old ↦
          rw (e, sweep)
            (rw (old, sweep)
              (sweep-All r i (copy_slot xs i (i + r)) _ (copy_slot-All xs i (i + r) a)))
      | inr young ↦ rw (e, sweep) (rw (young, sweep) (sweep-All r (i + 1) xs s a))
    ]
  ]

pub expire-arrays :
    (t : Table) (now : ℕ) → All IsEntry t.entries → All IsEntry (expire t now).entries
unfolding expire
expire-arrays t now a =
    sweep-All IsEntry (stale now) (λ e. not e.complete) t.count 0 t.entries t.expired a

pub init-arrays : All IsEntry init.entries
unfolding init
init-arrays = All-replicate IsEntry max_entries zeroed (refl, refl)

add_fragment-arrays :
    (now : ℕ) (t : Table) (i : ℕ) (e : Entry) (offset size : ℕ) (more : Bool)
    → All IsEntry t.entries
    → IsEntry e
    → All IsEntry (add_fragment now t i e offset size more).1.entries
unfolding add_fragment
add_fragment-arrays now t i e offset size more a v =
    let p : IsEntry (placed now offset size more e) = (
      length-set e.frag_offsets e.frag_count offset ∙ v.0,
      length-set e.frag_sizes e.frag_count size ∙ v.1,
    ) in
    elim (Bool-cases (leb max_frags e.frag_count)) [
      | inl full ↦ rw full (All-set IsEntry t.entries i e a v)
      | inr room ↦ elim (Bool-cases (is_covered (placed now offset size more e))) [
        | inl done ↦ rw (room, done) (All-set IsEntry t.entries i _ a p)
        | inr open_e ↦ rw (room, open_e) (All-set IsEntry t.entries i _ a p)
      ]
    ]

get_or-IsEntry : (es : List Entry) (i : ℕ) → All IsEntry es → IsEntry (get_or es i zeroed)
get_or-IsEntry [] i a = (refl, refl)
get_or-IsEntry (e ∷ es) zero a = a.0
get_or-IsEntry (e ∷ es) (suc i) a = get_or-IsEntry es i a.1

add_live-arrays :
    (now : ℕ) (t : Table) (k : Key) (offset size : ℕ) (more : Bool)
    → All IsEntry t.entries
    → All IsEntry (add_live now t k offset size more).1.entries
unfolding add_live
add_live-arrays now t k offset size more a = elim (Option-cases (find_entry t k)) [
  | inr (i, e) ↦
      rw (e, add_live)
        (add_fragment-arrays now t i (get_or t.entries i zeroed) offset size more a
          (get_or-IsEntry t.entries i a))
  | inl e ↦ elim (Bool-cases (leb max_entries t.count)) [
    | inl full ↦ rw (e, add_live, full) a
    | inr room ↦
        rw (e, add_live, room)
          (add_fragment-arrays now (record t { count = t.count + 1 }) t.count (opened now k) offset
            size more a (refl, refl))
  ]
]

-- A fragment leaves the arrays of offsets and sizes with their 16 elements.
pub add-arrays :
    (now : ℕ) (t : Table) (k : Key) (offset size : ℕ) (more : Bool)
    → All IsEntry t.entries
    → All IsEntry (add now t k offset size more).1.entries
unfolding add
add-arrays now t k offset size more a =
    add_live-arrays now (expire t now) k offset size more (expire-arrays t now a)
