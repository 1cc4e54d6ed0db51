-- ===== src/Ipdefrag/Datagram.antt =====
-- src/ipdefrag.c from the first fragment of a datagram to the datagram: the two ends of its way.
use pktsnare.Common.{
  ℕ, zero, suc, ◌+◌, ◌-◌, ◌^◌, ◌≤◌, ◌<◌, ◌≡◌, refl, sym, ap, subst, ◌∙◌, inl, inr, Bool, true,
  false, Option, none, some, List, [], ◌∷◌, ◌++◌, arith, ltb, if◌then◌else◌, Option-cases, length,
  get_or, get_or-set_self, set, take, length-append, modify-set, take-set, take_all,
}
use mathlib.Core.List.{append_assoc}
use pktsnare.Table.Scan.{scan-Finds, Finds, Fails, scan-set_end}
use pktsnare.Table.Find.{Fails-take}
use pktsnare.Ipdefrag.{
  Status, complete, pending, err, Entry, Table, Key, max_frags, zeroed, opened, holds, add_to_entry,
  find_entry, alloc_entry, entry_for, free_entry, add, get,
}
use pktsnare.Ipdefrag.Whole.{deliver, joined, waits, Holds, extended, add_to_entry-end}

set-set : (xs : List Entry) (i : ℕ) (v w : Entry) → set (set xs i v) i w ≡ set xs i w
set-set [] i v w = refl
set-set (x ∷ xs) zero v w = refl
set-set (x ∷ xs) (suc i) v w = ap (◌∷◌ x) (set-set xs i v w)

-- `ipdefrag_add` behind the search for the entry
stored : Option ℕ × Table → ℕ → Bool → List ℕ → ℕ → List ℕ → Option (Status × Table)
stored (none, t) offset more payload len fresh = some (err, t)
stored (some i, t) offset more payload len fresh =
    elim (add_to_entry (get_or t.entries i zeroed) offset more payload len true fresh) [
      | none ↦ none
      | some (status, e) ↦ some (status, record t { entries = set t.entries i e })
    ]

add-stored :
    (t : Table) (k : Key) (offset : ℕ) (more : Bool) (payload : List ℕ) (len : ℕ) (fresh : List ℕ)
    → add t k offset more payload len true fresh
      ≡ stored (entry_for t k) offset more payload len fresh
unfolding add stored
add-stored t k offset more payload len fresh = elim (Option-cases ((entry_for t k).0)) [
  | inl e ↦ rw (e, add, stored) refl
  | inr (i, e) ↦ rw (e, add, stored) refl
]

pub find_entry-Fails :
    (t : Table) (k : Key) → find_entry t k ≡ none → Fails (holds k) (take t.count t.entries)
unfolding find_entry
find_entry-Fails t k miss =
    Fails-take (holds k) t.count t.entries
      (subst (Finds (holds k) t.count t.entries) miss (scan-Finds (holds k) t.count t.entries))

-- The table `ys` with its first `n` entries, none of the datagram `k`
module _ (k : Key) (ys : List Entry) (n : ℕ) (others : Fails (holds k) (take n ys))
    (room : n < length ys) where
  abbrev pub with_entry : Entry → Table
  with_entry e = record { entries = set ys n e; count = n + 1 }

  pub find-with_entry : (e : Entry) → holds k e ≡ true → find_entry (with_entry e) k ≡ some n
  unfolding find_entry
  find-with_entry e h = scan-set_end (holds k) n ys e others room h

  entry_for-with_entry :
      (e : Entry) → holds k e ≡ true → entry_for (with_entry e) k ≡ (some n, with_entry e)
  unfolding entry_for
  entry_for-with_entry e h = rw (find-with_entry e h, entry_for) refl

  pub add-again :
      (e : Entry) (offset : ℕ) (more : Bool) (payload : List ℕ) (len : ℕ) (fresh : List ℕ)
      {status : Status} {e' : Entry}
      → holds k e ≡ true
      → add_to_entry e offset more payload len true fresh ≡ some (status, e')
      → add (with_entry e) k offset more payload len true fresh ≡ some (status, with_entry e')
  unfolding stored
  add-again e offset more payload len fresh {e' = e'} h r =
      add-stored (with_entry e) k offset more payload len fresh
      ∙ rw (entry_for-with_entry e h, stored)
          (rw (get_or-set_self ys n e zeroed room) (rw (r, stored) (rw (set-set ys n e e') refl)))

  add-end :
      (e : Entry) (got c : List ℕ) (more : Bool) (fresh : List ℕ) (offset : ℕ)
      → Holds k e got
      → offset ≡ length got
      → offset + length c < 2 ^ 16
      → add (with_entry e) k offset more c (length c) true fresh
        ≡ some (if more then pending else complete, with_entry (extended e got c more))
  add-end e got c more fresh offset w start small = rw start (
      add-again e (length got) more c (length c) fresh w.named
        (add_to_entry-end k e got c more fresh w (omega arith)))

  -- The entry of a datagram that has come whole
  record Full (e : Entry) (whole : List ℕ) : Type 0 where
    named : holds k e ≡ true
    same : e.bytes ≡ whole
    sized : e.total_len ≡ length whole
    ended : e.last_seen ≡ true

  extended-Holds :
      (e : Entry) (got c : List ℕ) → Holds k e got → Holds k (extended e got c true) (got ++ c)
  extended-Holds e got c w = record {
    named = w.named;
    same = refl;
    sized = sym (length-append got c);
    all = sym (length-append got c);
    unfinished = w.unfinished;
  }

  extended-Full :
      (e : Entry) (got c : List ℕ) → Holds k e got → Full (extended e got c false) (got ++ c)
  extended-Full e got c w = record {
    named = w.named;
    same = refl;
    sized = sym (length-append got c);
    ended = refl;
  }

  deliver-with_entry :
      (cs : List (List ℕ)) (last fresh : List ℕ) (e : Entry) (got : List ℕ) (offset : ℕ)
      → Holds k e got
      → offset ≡ length got
      → offset + length (joined cs ++ last) < 2 ^ 16
      → (e' : Entry) × (deliver (with_entry e) k offset cs last fresh
          ≡ some (waits cs, with_entry e'))
        × Full e' (got ++ (joined cs ++ last))
  unfolding deliver
  deliver-with_entry [] last fresh e got offset w start small = (
    extended e got last false,
    rw (add-end e got last false fresh offset w start small, deliver) refl,
    extended-Full e got last w,
  )
  deliver-with_entry (c ∷ cs) last fresh e got offset w start small =
      let size : length ((c ++ joined cs) ++ last) ≡ length c + length (joined cs ++ last) = omega (
        arith,
        length-append (c ++ joined cs) last,
        length-append (joined cs) last,
        length-append c (joined cs),
      ) in
      let ih =
        deliver-with_entry cs last fresh (extended e got c true) (got ++ c) (offset + length c)
          (extended-Holds e got c w) (omega (arith, length-append got c)) (omega arith) in
      (
        ih.0,
        rw (add-end e got c true fresh offset w start (omega arith), deliver) (rw ih.1 refl),
        subst (Full ih.0)
            (append_assoc got c (joined cs ++ last)
              ∙ ap (◌++◌ got) (sym (append_assoc c (joined cs) last)))
            ih.2,
      )

  opened-Holds : Holds k (opened k) []
  opened-Holds = record {
    named = ground arith;
    same = refl;
    sized = refl;
    all = refl;
    unfinished = refl;
  }

  -- The first fragment of the datagram opens an entry for it.
  entry_for-opens :
      find_entry (record { entries = ys; count = n }) k ≡ none
      → n < max_frags
      → entry_for (record { entries = ys; count = n }) k ≡ (some n, with_entry (opened k))
  unfolding entry_for alloc_entry
  entry_for-opens miss h = rw (miss, entry_for) (ground arith)

  pub add-opens :
      (offset : ℕ) (more : Bool) (payload : List ℕ) (len : ℕ) (fresh : List ℕ)
      → find_entry (record { entries = ys; count = n }) k ≡ none
      → n < max_frags
      → add (record { entries = ys; count = n }) k offset more payload len true fresh
        ≡ add (with_entry (opened k)) k offset more payload len true fresh
  add-opens offset more payload len fresh miss h =
      add-stored (record { entries = ys; count = n }) k offset more payload len fresh
      ∙ (ap (λ (r : Option ℕ × Table). stored r offset more payload len fresh)
            (entry_for-opens miss h ∙ sym (entry_for-with_entry (opened k) (opened-Holds.named)))
          ∙ sym (add-stored (with_entry (opened k)) k offset more payload len fresh))

  deliver-opens :
      (cs : List (List ℕ)) (last fresh : List ℕ)
      → find_entry (record { entries = ys; count = n }) k ≡ none
      → n < max_frags
      → deliver (record { entries = ys; count = n }) k 0 cs last fresh
        ≡ deliver (with_entry (opened k)) k 0 cs last fresh
  unfolding deliver
  deliver-opens [] last fresh miss h =
      rw (add-opens 0 false last (length last) fresh miss h, deliver) refl
  deliver-opens (c ∷ cs) last fresh miss h =
      rw (add-opens 0 true c (length c) fresh miss h, deliver) refl

  get-with_entry :
      (e : Entry) (whole : List ℕ) (limit : ℕ)
      → Full e whole
      → length whole ≤ limit
      → get (with_entry e) k limit ≡ some (complete, some whole, free_entry (with_entry e) n)
  unfolding get
  get-with_entry e whole limit f h =
      rw (find-with_entry e f.named, get)
        (rw (get_or-set_self ys n e zeroed room) (
          rw (f.ended, f.same, f.sized, take_all whole (length whole) (omega arith))
            (ground arith)))

  pub free-with_entry :
      (e : Entry)
      → ((free_entry (with_entry e) n).count ≡ n)
        × (take n ((free_entry (with_entry e) n).entries) ≡ take n ys)
  unfolding free_entry
  free-with_entry e = (
    omega arith,
    rw (modify-set ys n e (λ (x : Entry). record x { bytes = [] })) (
        let at_end : ltb n (n + 1 - 1) ≡ false = ground arith in
        rw at_end (take-set n ys n _ (omega arith))),
  )

-- The pieces of a datagram are added in their order from offset 0 on, each piece but the last with
-- more to come, memory being given each time, to a table of 64 slots of which fewer are in use and
-- none is for the datagram. Where the pieces are less than 64 KiB together and fit the limit of
-- `ipdefrag_get`, each call of `ipdefrag_add` before the last one says that the datagram is not whole
-- and the last one that it is, `ipdefrag_get` returns the pieces joined, and the entries in use are
-- those from before.
pub get-deliver :
    (t : Table) (k : Key) (cs : List (List ℕ)) (last fresh : List ℕ) (limit : ℕ)
    → length t.entries ≡ max_frags
    → t.count < max_frags
    → find_entry t k ≡ none
    → length (joined cs ++ last) < 2 ^ 16
    → length (joined cs ++ last) ≤ limit
    → (t' : Table) × (t'' : Table) × (deliver t k 0 cs last fresh ≡ some (waits cs, t'))
      × (get t' k limit ≡ some (complete, some (joined cs ++ last), t''))
      × (t''.count ≡ t.count)
      × (take t.count t''.entries ≡ take t.count t.entries)
get-deliver t k cs last fresh limit space room miss small fits =
    let others = find_entry-Fails t k miss in
    let inside : t.count < length t.entries = omega arith in
    let d =
      deliver-with_entry k t.entries t.count others inside cs last fresh (opened k) [] 0
        (opened-Holds k t.entries t.count others inside) refl (omega arith) in
    let freed = free-with_entry k t.entries t.count others inside d.0 in
    (
      _,
      _,
      deliver-opens k t.entries t.count others inside cs last fresh miss room ∙ d.1,
      get-with_entry k t.entries t.count others inside d.0 (joined cs ++ last) limit d.2 fits,
      freed.0,
      freed.1,
    )
