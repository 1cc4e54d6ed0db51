-- ===== src/Ipdefrag/Total.antt =====
-- Every call of src/ipdefrag.c on fragments of datagrams below 64 KiB returns and keeps the table in
-- order; a fragment that reaches further is written past the end of its buffer.
use pktsnare.Common.{
  ℕ, ◌+◌, ◌-◌, ◌^◌, ◌≤◌, ◌<◌, ◌≡◌, refl, sym, ap, subst, ◌∙◌, ◌≢◌, inl, inr, Bool, true, false,
  Option, none, some, List, [], arith, ℕ_discrete, ltb, leb, Bool-cases, Option-cases, length,
  get_elem?, get_or, get_or-set_ne, set, length-set, get_elem?-eq-get_or, get_elem?-set_self,
  get_elem?-set_ne, modify-eq-set, add16,
}
use mathlib.Core.Option.{some-injective}
use pktsnare.Table.Scan.{scan, scan-Finds, Finds}
use pktsnare.Table.Packed.{copy_slot, copy_slot-eq-set, length-copy_slot}
use pktsnare.Ipdefrag.{
  Status, Entry, Table, Key, max_frags, zeroed, opened, holds, copy_in, receive, add_to_entry,
  find_entry, alloc_entry, entry_for, free_entry, add, get,
}
use pktsnare.Ipdefrag.Writes.{IsEntry, IsValid, Keeps, length-grown, add_to_entry-Keeps}

-- The call returns a table that is in order.
abbrev pub Safe {ℓ} : {A : Type ℓ} → Option (Status × A) → (A → Type 0) → Type 0
Safe none P = ⊥
Safe (some (status, x)) P = P x

-- An entry of the table, if any, by its index
abbrev pub Inside : Option ℕ → Table → Type 0
Inside none t = Unit
Inside (some i) t = i < t.count

pub find_entry-Inside : (t : Table) (k : Key) → Inside (find_entry t k) t
unfolding find_entry
find_entry-Inside t k =
    go (scan (holds k) t.count t.entries) (scan-Finds (holds k) t.count t.entries)
  where
    go : (o : Option ℕ) → Finds (holds k) t.count t.entries o → Inside o t
    go none f = tt
    go (some i) f = f.1.below

-- An entry of an array in which one was written is that one, or was there.
each-set :
    (xs : List Entry) (i j : ℕ) (e : Entry) {x : Entry}
    → i < length xs
    → get_elem? (set xs i e) j ≡ some x
    → IsEntry e
    → (i ≢ j → get_elem? xs j ≡ some x → IsEntry x)
    → IsEntry x
each-set xs i j e inside at w old = elim (ℕ_discrete i j) [
  | yes same ↦
      subst IsEntry
        (some-injective _ _
          (sym (get_elem?-set_self xs i e inside) ∙ (ap (get_elem? (set xs i e)) same ∙ at)))
        w
  | no other ↦ old other (sym (get_elem?-set_ne xs e other) ∙ at)
]

pub set-IsValid :
    (t : Table) (i : ℕ) (e : Entry)
    → IsValid t
    → i < t.count
    → IsEntry e
    → IsValid (record t { entries = set t.entries i e })
set-IsValid t i e v inside w = record {
  space = length-set t.entries i e ∙ v.space;
  bound = v.bound;
  each = λ j x h at.
      each-set t.entries i j e (omega (arith, v.space, v.bound)) at w (λ o. v.each j x h);
}

opened-IsEntry : (k : Key) → IsEntry (opened k)
opened-IsEntry k = record { sized = refl; total = omega arith; small = omega arith }

alloc-IsValid :
    (t : Table) (k : Key)
    → IsValid t
    → t.count < max_frags
    → IsValid (record { entries = set t.entries t.count (opened k); count = t.count + 1 })
alloc-IsValid t k v h = record {
  space = length-set t.entries t.count (opened k) ∙ v.space;
  bound = omega arith;
  each = λ j x l at.
      each-set t.entries t.count j (opened k) (omega (arith, v.space)) at (opened-IsEntry k)
        (λ o. v.each j x (omega arith));
}

at_index :
    (t : Table) (i : ℕ)
    → IsValid t
    → i < t.count
    → get_elem? t.entries i ≡ some (get_or t.entries i zeroed)
at_index t i v h = get_elem?-eq-get_or t.entries i zeroed (omega (arith, v.space, v.bound))

pub get_or-IsEntry :
    (t : Table) (i : ℕ) → IsValid t → i < t.count → IsEntry (get_or t.entries i zeroed)
get_or-IsEntry t i v h = v.each i _ h (at_index t i v h)

abbrev emptied : Entry → Entry
emptied e = record e { bytes = [] }

free-IsValid : (t : Table) (i : ℕ) → IsValid t → i < t.count → IsValid (free_entry t i)
unfolding free_entry
free-IsValid t i v h =
    rw (modify-eq-set t.entries i emptied (at_index t i v h))
      (elim (Bool-cases (ltb i (t.count - 1))) [
        | inl before ↦ rw before (record {
          space = length-copy_slot _ i (t.count - 1) ∙ (length-set t.entries i gone ∙ v.space);
          bound = omega (arith, v.bound);
          each = λ j x l at.
              each-set (set t.entries i gone) i j last
                (omega (arith, length-set t.entries i gone, v.space, v.bound))
                (sym (ap (λ ys. get_elem? ys j) (moved (ground arith))) ∙ at)
                (get_or-IsEntry t (t.count - 1) v (omega arith))
                (λ other old.
                  v.each j x (omega arith) (sym (get_elem?-set_ne t.entries gone other) ∙ old));
        })
        | inr end_ ↦ rw end_ (record {
          space = length-set t.entries i gone ∙ v.space;
          bound = omega (arith, v.bound);
          each = λ j x l at.
              v.each j x (omega arith) (sym (get_elem?-set_ne t.entries gone (ground arith)) ∙ at);
        })
      ])
  where
    gone : Entry
    gone = emptied (get_or t.entries i zeroed)

    last : Entry
    last = get_or t.entries (t.count - 1) zeroed

    moved :
        i ≢ t.count - 1
        → copy_slot (set t.entries i gone) i (t.count - 1) ≡ set (set t.entries i gone) i last
    moved other =
        copy_slot-eq-set (set t.entries i gone) i (t.count - 1) zeroed
          (omega (arith, length-set t.entries i gone, v.space, v.bound))
        ∙ ap (set (set t.entries i gone) i) (get_or-set_ne t.entries gone zeroed other)

-- The entry for a datagram is one of the table's.
entry_for-IsValid :
    (t : Table) (k : Key)
    → IsValid t
    → IsValid ((entry_for t k).1) × Inside ((entry_for t k).0) ((entry_for t k).1)
unfolding entry_for alloc_entry
entry_for-IsValid t k v = elim (Option-cases (find_entry t k)) [
  | inr (i, found) ↦
      rw (found, entry_for) (v, subst (λ o. Inside o t) found (find_entry-Inside t k))
  | inl fresh ↦
      rw (fresh, entry_for)
        (elim (Bool-cases (leb max_frags t.count)) [
          | inl full ↦ rw full (v, tt)
          | inr room ↦ rw room (alloc-IsValid t k v (ground arith), omega arith)
        ])
]

-- The result of a call that is safe
returned :
    {A : Type 0} (o : Option (Status × A)) {P : A → Type 0}
    → Safe o P
    → (status : Status) × (x : A) × (o ≡ some (status, x)) × P x
returned none s = absurd s
returned (some (status, x)) s = (status, x, refl, s)

store-Safe :
    (t : Table) (i : ℕ) (o : Option (Status × Entry))
    → IsValid t
    → i < t.count
    → Keeps o
    → Safe {A = Table}
        (elim o [
          | none ↦ none
          | some (status, e) ↦ some (status, record t { entries = set t.entries i e })
        ])
        IsValid
store-Safe t i none v h s = absurd s
store-Safe t i (some (status, e)) v h s = set-IsValid t i e v h s

add-Safe :
    (t : Table) (k : Key) (offset : ℕ) (more : Bool) (payload : List ℕ) (len : ℕ) (allocated : Bool)
    (fresh : List ℕ)
    → IsValid t
    → offset + len < 2 ^ 16
    → len ≤ length payload
    → Safe (add t k offset more payload len allocated fresh) IsValid
unfolding add
add-Safe t k offset more payload len allocated fresh v h p =
    let w = entry_for-IsValid t k v in
    elim (Option-cases ((entry_for t k).0)) [
      | inl full ↦ rw (full, add) w.0
      | inr (i, given) ↦
          rw (given, add)
            (let below : i < ((entry_for t k).1).count =
                subst (λ o. Inside o ((entry_for t k).1)) given w.1 in
              store-Safe ((entry_for t k).1) i _ w.0 below (
                add_to_entry-Keeps _ offset more payload len allocated fresh
                  (get_or-IsEntry _ i w.0 below) h p))
    ]

-- A call of `ipdefrag_add` of src/ipdefrag.c with a fragment that ends below 64 KiB and a payload of
-- at least `len` bytes, on a table that is in order, writes inside its buffer, whether memory is given
-- or not: it returns, and the table is in order again.
pub add-IsValid :
    (t : Table) (k : Key) (offset : ℕ) (more : Bool) (payload : List ℕ) (len : ℕ) (allocated : Bool)
    (fresh : List ℕ)
    → IsValid t
    → offset + len < 2 ^ 16
    → len ≤ length payload
    → (status : Status) × (t' : Table) × (add t k offset more payload len allocated fresh
        ≡ some (status, t'))
      × IsValid t'
add-IsValid t k offset more payload len allocated fresh v h p =
    returned _ (add-Safe t k offset more payload len allocated fresh v h p)

abbrev SafeGet : Option (Status × Option (List ℕ) × Table) → Type 0
SafeGet none = ⊥
SafeGet (some (status, out, t)) = IsValid t

got :
    (o : Option (Status × Option (List ℕ) × Table))
    → SafeGet o
    → (status : Status) × (out : Option (List ℕ)) × (t' : Table) × (o ≡ some (status, out, t'))
      × IsValid t'
got none s = absurd s
got (some (status, out, t)) s = (status, out, t, refl, s)

get-Safe : (t : Table) (k : Key) (limit : ℕ) → IsValid t → SafeGet (get t k limit)
unfolding get
get-Safe t k limit v = elim (Option-cases (find_entry t k)) [
  | inl missing ↦ rw (missing, get) v
  | inr (i, found) ↦
      rw (found, get)
        (let below : i < t.count = subst (λ o. Inside o t) found (find_entry-Inside t k) in
          let w = get_or-IsEntry t i v below in
          let freed = free-IsValid t i v below in
          elim (Bool-cases ((get_or t.entries i zeroed).last_seen)) [
            | inr open_ ↦ rw open_ v
            | inl ended ↦
                rw ended (elim (Bool-cases (ltb limit ((get_or t.entries i zeroed).total_len))) [
                  | inl large ↦ rw large v
                  | inr fits ↦ rw fits (
                      let inside : ltb (length ((get_or t.entries i zeroed).bytes))
                            ((get_or t.entries i zeroed).total_len)
                          ≡ false =
                        ground (arith, w.sized, w.total) in
                      rw inside freed)
                ])
          ])
]

-- A call of `ipdefrag_get` on a table that is in order reads inside the buffer: it returns, and the
-- table is in order again.
pub get-IsValid :
    (t : Table) (k : Key) (limit : ℕ)
    → IsValid t
    → (status : Status) × (out : Option (List ℕ)) × (t' : Table) × (get t k limit
        ≡ some (status, out, t'))
      × IsValid t'
get-IsValid t k limit v = got _ (get-Safe t k limit v)

-- On an entry that is in order, a fragment of 16-bit numbers that ends at 64 KiB or behind is written
-- past the end of the buffer, unless memory was asked for and not given.
pub add_to_entry-wrapped :
    (e : Entry) (offset : ℕ) (more : Bool) (payload : List ℕ) (len : ℕ) (fresh : List ℕ)
    → IsEntry e
    → 2 ^ 16 ≤ offset + len
    → add_to_entry e offset more payload len true fresh ≡ none
unfolding add_to_entry receive copy_in
add_to_entry-wrapped e offset more payload len fresh v h =
    elim (Bool-cases (ltb e.buf_len (add16 offset len))) [
      | inr fits ↦ rw (fits, add_to_entry) (ground (arith, v.sized))
      | inl grows ↦
          rw (grows, add_to_entry) (ground (arith, length-grown (add16 offset len) fresh e.bytes))
    ]

-- A fragment whose end, the sum of its offset and length, is 64 KiB or more: where the table, which is
-- in order, has or makes an entry for it and memory is given, `ipdefrag_add` of src/ipdefrag.c writes
-- past the end of the buffer of the entry.
pub add-wrapped :
    (t : Table) (k : Key) (offset : ℕ) (more : Bool) (payload : List ℕ) (len : ℕ) (fresh : List ℕ)
    (i : ℕ)
    → IsValid t
    → (entry_for t k).0 ≡ some i
    → 2 ^ 16 ≤ offset + len
    → add t k offset more payload len true fresh ≡ none
unfolding add
add-wrapped t k offset more payload len fresh i v given h =
    let w = entry_for-IsValid t k v in
    let below : i < ((entry_for t k).1).count =
      subst (λ o. Inside o ((entry_for t k).1)) given w.1 in
    rw (given, add)
      (rw (add_to_entry-wrapped _ offset more payload len fresh (get_or-IsEntry _ i w.0 below) h)
        refl)
