-- ===== src/Fragtrack/Completion.antt =====
-- `fragtrack_add` and `fragtrack_is_complete` of src/fragtrack.c, in terms of datagrams.
use pktsnare.Common.{
  ℕ, ◌+◌, ◌<◌, ◌≡◌, refl, sym, ap, ◌∙◌, ◌⊎◌, inl, inr, Bool, true, false, arith, ltb, leb,
  if◌then◌else◌, Bool-cases, Option-cases, All, length, get_or, set, add64, get_elem?-eq-get_or,
  All-get_elem?,
}
use mathlib.Core.Option.{some-injective}
use pktsnare.Common.Int.{ℤ, success, failure}
use pktsnare.Table.Scan.{scan, Fails, IsFirst, scan-Finds}
use pktsnare.Table.Find.{find-none, find-at, Fails-take}
use pktsnare.Fragtrack.{
  Table, Entry, Key, zeroed, max_entries, max_frags, holds, find_entry, expire, opened,
  add_fragment, add_live, add, is_complete,
}
use pktsnare.Fragtrack.Laws.{live, IsValid, expire-datagrams}
use pktsnare.Fragtrack.Datagrams.{
  covers, joined, seen, has_room, is_same, IsEntry, is_complete-seen, filled, datagram-filled,
  holds-filled, add_fragment_lem,
}
use pktsnare.Fragtrack.Arrays.{expire-arrays}
use pktsnare.Fragtrack.Updates.{opened-holds, seen-set, seen-end, seen_self}

-- What a fragment has done, by its status: it has joined its datagram, or there was no room.
module _ (now offset size : ℕ) (more : Bool) (t : Table) (k k' : Key) where
  abbrev pub Joins : ℤ × Table → Type 0
  Joins (status, t') =
      let next = joined now offset size more (seen t k) in
      (has_room t k ≡ true)
      × (status ≡ success)
      × (seen t' k' ≡ (if is_same k k' then next else seen t k'))
      × (t'.reassembled ≡ (if covers next then add64 t.reassembled 1 else t.reassembled))
      × (t'.dropped ≡ t.dropped)

abbrev pub IsDropped : Table → Key → Key → ℤ × Table → Type 0
IsDropped t k k' (status, t') =
    (has_room t k ≡ false)
    × (status ≡ failure)
    × (seen t' k' ≡ seen t k')
    × (t'.reassembled ≡ t.reassembled)
    × (t'.dropped ≡ add64 t.dropped 1)

module _ (now offset size : ℕ) (more : Bool) (t : Table) (k k' : Key) where
  add_fragment-full :
      (i : ℕ) (x : Entry)
      → ltb x.frag_count max_frags ≡ false
      → add_fragment now t i x offset size more
        ≡ (failure, record t { dropped = add64 t.dropped 1; entries = set t.entries i x })
  unfolding add_fragment
  add_fragment-full i x full = let e : leb max_frags x.frag_count ≡ true = ground arith in rw e refl

  -- A fragment for an entry that is there
  add_found :
      (i : ℕ) (x : Entry)
      → IsFirst (holds k) t.count t.entries i x
      → IsEntry x
      → Joins now offset size more t k k' (add_fragment now t i x offset size more)
        ⊎ IsDropped t k k' (add_fragment now t i x offset size more)
  add_found i x f v =
      let held = find-at (holds k) t.count t.entries i x f.below f.at f.hit f.before in
      elim (Bool-cases (ltb x.frag_count max_frags)) [
        | inl room ↦
            rw (held, room, add_fragment_lem now offset size more t i x v (ground arith))
              (inl (
                refl,
                refl,
                seen-set t i x (filled now offset size more x) k k' f
                      (λ key. holds-filled now offset size more key x)
                    ∙ ap (λ d. if is_same k k' then d else seen t k')
                        (datagram-filled now offset size more x v (ground arith)),
                refl,
                refl,
              ))
        | inr full ↦
            rw (held, full, add_fragment-full i x full)
              (inr (
                refl,
                refl,
                seen-set t i x x k k' f (λ key. refl) ∙ seen_self t x k k' held,
                refl,
                refl,
              ))
      ]

  -- A fragment for a new entry
  add_new :
      Fails (holds k) (live t)
      → t.count < length t.entries
      → t.count < max_entries
      → let r =
          add_fragment now
            (record t { count = t.count + 1 })
            t.count
            (opened now k)
            offset
            size
            more in
        Joins now offset size more t k k' r ⊎ IsDropped t k k' r
  add_new miss inside h =
      let held = find-none (holds k) (live t) miss in
      let room : ltb t.count max_entries ≡ true = ground arith in
      let e = opened now k in
      rw
        (
          held,
          room,
          add_fragment_lem now offset size more (record t { count = t.count + 1 }) t.count e
              (refl, refl) (omega arith),
        )
        (inl (
          refl,
          refl,
          seen-end t (filled now offset size more e) k k' miss inside
                (holds-filled now offset size more k e ∙ opened-holds now k)
              ∙ ap (λ d. if is_same k k' then d else seen t k')
                  (datagram-filled now offset size more e (refl, refl) (omega arith)),
          refl,
          refl,
        ))

  add_live-cases :
      IsValid t
      → All IsEntry t.entries
      → let r = add_live now t k offset size more in
        Joins now offset size more t k k' r ⊎ IsDropped t k k' r
  unfolding add_live find_entry
  add_live-cases v arrays = elim (Option-cases (scan (holds k) t.count t.entries)) [
    | inr (i, e) ↦
        let (x, f) = rw e at (scan-Finds (holds k) t.count t.entries) in
        let here : get_or t.entries i zeroed ≡ x =
          some-injective _ _ (sym (get_elem?-eq-get_or t.entries i zeroed f.inside) ∙ f.at) in
        rw (e, add_live, here) (add_found i x f (All-get_elem? IsEntry t.entries i arrays f.at))
    | inl e ↦
        let miss =
          Fails-take (holds k) t.count t.entries
            (rw e at (scan-Finds (holds k) t.count t.entries)) in
        elim (Bool-cases (leb max_entries t.count)) [
          | inr room ↦
              rw (e, add_live, room) (add_new miss (ground (arith, v.space)) (ground arith))
          | inl full ↦
              let none_left : ltb t.count max_entries ≡ false = ground arith in
              rw (e, add_live, full, find-none (holds k) (live t) miss, none_left)
                (inr (refl, refl, refl, refl, refl))
        ]
  ]

-- In a valid table whose arrays have 16 elements, a fragment first expires what is old. If then its
-- datagram has fewer than 16 fragments, or has no entry and there are fewer than 64, the fragment
-- joins it and 0 is returned: its offset and size come behind the others; `now` is the latest time;
-- the last fragment sets the length to its offset and size modulo 2^16; the datagram is complete if it
-- was, or if the length is not 0 and at most the sum of the sizes modulo 2^16, wherever the fragments
-- lie; and whenever the sum reaches a length that is not 0, also where the datagram was complete
-- before, a reassembly is counted modulo 2^64. Else -1 is returned, what is held stays, and a drop is
-- counted modulo 2^64. Of every other key the same is held, and for each key `fragtrack_is_complete`
-- says whether its datagram is complete.
pub is_complete-add :
    (now offset size : ℕ) (more : Bool) (t : Table) (k k' : Key)
    → IsValid t
    → All IsEntry t.entries
    → let r = add now t k offset size more in
      (is_complete r.1 k' ≡ (seen r.1 k').complete)
      × (Joins now offset size more (expire t now) k k' r ⊎ IsDropped (expire t now) k k' r)
unfolding add
is_complete-add now offset size more t k k' v arrays = (
  is_complete-seen (add now t k offset size more).1 k',
  add_live-cases now offset size more (expire t now) k k' (expire-datagrams t now v).3
      (expire-arrays t now arrays),
)
