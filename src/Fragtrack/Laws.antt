-- ===== src/Fragtrack/Laws.antt =====
-- The bounds of src/fragtrack.c, and what expiry and removal take out.
use pktsnare.Common.{
  ℕ, suc, ◌+◌, ◌-◌, ◌%◌, ◌^◌, ◌≤◌, ◌<◌, ◌≡◌, refl, sym, ◌∙◌, ◌⊎◌, inl, inr, Bool, true, not, ◌&&◌,
  List, ◌∷◌, Perm, arith, leb, Bool-cases, Option-cases, length, get_or, take, length-set,
  get_elem?-eq-get_or,
}
use mathlib.Core.Option.{some-injective}
use pktsnare.Common.Filter.{keep, count_if}
use pktsnare.Table.Scan.{scan, Fails, IsFirst, scan-Finds}
use pktsnare.Table.Find.{Fails-take}
use pktsnare.Table.Packed.{sweep_lem, count-Swept, copy_slot, copy_slot-perm}
use pktsnare.Fragtrack.{
  Table, Entry, Key, zeroed, max_entries, max_frags, holds, find_entry, stale, expire, opened,
  placed, is_covered, add_fragment, add_live, add, remove, init,
}

abbrev pub live : Table → List Entry
live t = take t.count t.entries

-- The counts fit the arrays.
pub record IsValid (t : Table) : Type 0 where
  pub space : length t.entries ≡ max_entries
  pub bounded : t.count ≤ max_entries
  pub expired_in : t.expired < 2 ^ 64

pub init-bounded : IsValid init
unfolding init
init-bounded = record { space = refl; bounded = omega arith; expired_in = omega arith }

-- In a valid table, expiry keeps the datagrams that had a fragment in the last 30 seconds, each as
-- often as it was there, removes all others, lowers the count by their number, and counts those of
-- them that were not complete; the table stays valid.
pub expire-datagrams :
    (t : Table) (now : ℕ)
    → IsValid t
    → let t' = expire t now in
      Perm (live t') (keep (λ e. not (stale now e)) (live t))
      × (t'.expired ≡ (t.expired + count_if (λ e. stale now e && not e.complete) (live t)) % 2 ^ 64)
      × (t'.count + count_if (stale now) (live t) ≡ t.count)
      × IsValid t'
unfolding expire
expire-datagrams t now v =
    let w =
      sweep_lem (stale now) (λ e. not e.complete) t.count t.expired t.entries
        (omega (arith, v.space, v.bounded)) v.expired_in in
    (
      w.live,
      w.tally,
      count-Swept (stale now) (λ e. not e.complete) t.count t.expired t.entries w
          (omega (arith, v.space, v.bounded)),
      record {
        space = w.space ∙ v.space;
        bounded = omega (arith, w.shrinks, v.bounded);
        expired_in = omega (arith, w.tally);
      },
    )

add_fragment-IsValid :
    (now : ℕ) (t : Table) (i : ℕ) (e : Entry) (offset size : ℕ) (more : Bool)
    → IsValid t
    → IsValid (add_fragment now t i e offset size more).1
unfolding add_fragment
add_fragment-IsValid now t i e offset size more v = elim (Bool-cases (leb max_frags e.frag_count)) [
  | inl full ↦ rw full (record {
    space = length-set t.entries i e ∙ v.space;
    bounded = v.bounded;
    expired_in = v.expired_in;
  })
  | inr room ↦ elim (Bool-cases (is_covered (placed now offset size more e))) [
    | inl done ↦
        rw (room, done)
          (record {
            space = length-set t.entries i _ ∙ v.space;
            bounded = v.bounded;
            expired_in = v.expired_in;
          })
    | inr open_e ↦
        rw (room, open_e)
          (record {
            space = length-set t.entries i _ ∙ v.space;
            bounded = v.bounded;
            expired_in = v.expired_in;
          })
  ]
]

add_live-IsValid :
    (now : ℕ) (t : Table) (k : Key) (offset size : ℕ) (more : Bool)
    → IsValid t
    → IsValid (add_live now t k offset size more).1
unfolding add_live
add_live-IsValid now t k offset size more v = elim (Option-cases (find_entry t k)) [
  | inr (i, e) ↦
      rw (e, add_live) (add_fragment-IsValid now t i (get_or t.entries i zeroed) offset size more v)
  | inl e ↦ elim (Bool-cases (leb max_entries t.count)) [
    | inl full ↦
        rw (e, add_live, full)
          (record { space = v.space; bounded = v.bounded; expired_in = v.expired_in })
    | inr room ↦
        rw (e, add_live, room)
          (add_fragment-IsValid now (record t { count = t.count + 1 }) t.count (opened now k) offset
            size more
            (record { space = v.space; bounded = ground arith; expired_in = v.expired_in }))
  ]
]

-- A fragment, whatever it holds, leaves a valid table valid: its 64 slots, and a count of at most
-- 64.
pub add-bounded :
    (now : ℕ) (t : Table) (k : Key) (offset size : ℕ) (more : Bool)
    → IsValid t
    → IsValid (add now t k offset size more).1
unfolding add
add-bounded now t k offset size more v =
    add_live-IsValid now (expire t now) k offset size more (expire-datagrams t now v).3

-- A removal from a valid table takes out one entry of the datagram and no other, and does nothing
-- where there is none.
pub remove-first :
    (t : Table) (k : Key)
    → IsValid t
    → ((remove t k ≡ t) × Fails (holds k) (live t))
      ⊎ ((e : Entry) × (holds k e ≡ true) × Perm (live t) (e ∷ live (remove t k)))
unfolding remove
remove-first t k v = elim (Option-cases (scan (holds k) t.count t.entries)) [
  | inl e ↦
      let f = rw e at (scan-Finds (holds k) t.count t.entries) in
      inl (rw (e, remove), Fails-take (holds k) t.count t.entries f)
  | inr (i, e) ↦
      let f = rw e at (scan-Finds (holds k) t.count t.entries) in
      rw (e, remove) (inr (f.0, f.1.hit, taken_out i f.0 f.1))
]
  where
    taken_out :
        (i : ℕ) (e : Entry)
        → IsFirst (holds k) t.count t.entries i e
        → Perm (live t) (e ∷ take (t.count - 1) (copy_slot t.entries i (t.count - 1)))
    taken_out i e f =
        let here : get_or t.entries i e ≡ e =
          some-injective _ _ (sym (get_elem?-eq-get_or t.entries i e f.inside) ∙ f.at) in
        let last : suc (t.count - 1) ≡ t.count = omega (arith, f.below) in
        rw (here, last) at
          (copy_slot-perm t.entries i (t.count - 1) e (omega (arith, f.below))
            (omega (arith, f.below, v.space, v.bounded)))
