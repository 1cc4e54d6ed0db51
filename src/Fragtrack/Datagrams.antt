-- ===== src/Fragtrack/Datagrams.antt =====
-- What src/fragtrack.c holds of a datagram, and what a fragment makes of it.
use pktsnare.Common.{
  ℕ, suc, ◌+◌, ◌%◌, ◌^◌, ◌<◌, ◌≡◌, refl, sym, ap, ◌∙◌, inl, inr, Bool, true, false, ◌||◌, ◌&&◌,
  Option, none, some, List, [], ◌∷◌, ◌++◌, arith, ltb, leb, ◌==◌, if◌then◌else◌, Bool-cases,
  Option-cases, length, get_or, set, take, add8, add64, get_elem?-eq-get_or, take-set_end,
}
use mathlib.Core.Option.{some-injective}
use pktsnare.Common.Int.{success}
use pktsnare.Table.Scan.{scan, scan-Finds}
use pktsnare.Table.Find.{find, find-none, find-at, Fails-take}
use pktsnare.Fragtrack.{
  Table, Entry, Key, zeroed, max_entries, max_frags, holds, find_entry, placed, is_covered,
  add_fragment, is_complete,
}
use pktsnare.Fragtrack.Laws.{live}
use pktsnare.Fragtrack.Coverage.{sum, covered-sum}

-- The offsets and sizes of the fragments in the order of their arrival, the length (0 before the last
-- fragment is there), whether it was complete, and when the latest came.
pub record Datagram : Type 0 where
  pub offsets : List ℕ
  pub sizes : List ℕ
  pub total : ℕ
  pub complete : Bool
  pub latest : ℕ

abbrev pub covers : Datagram → Bool
covers d = ltb 0 d.total && leb d.total (sum d.sizes % 2 ^ 16)

-- One fragment more: the last one says the length, and what is once complete stays so.
abbrev pub joined : ℕ → ℕ → ℕ → Bool → Datagram → Datagram
joined now offset size more d =
    let d' : Datagram = record d {
      offsets = d.offsets ++ offset ∷ [];
      sizes = d.sizes ++ size ∷ [];
      latest = now;
      total = if more then d.total else (offset + size) % 2 ^ 16;
    } in
    record d' { complete = d.complete || covers d' }

abbrev pub datagram : Entry → Datagram
datagram e = record {
  offsets = take e.frag_count e.frag_offsets;
  sizes = take e.frag_count e.frag_sizes;
  latest = e.last_seen;
  total = e.total_len;
  complete = e.complete;
}

abbrev pub seen_of : Option Entry → Datagram
seen_of none = record { offsets = []; sizes = []; total = 0; complete = false; latest = 0 }
seen_of (some e) = datagram e

-- What a table holds of the datagram of a key.
abbrev pub seen : Table → Key → Datagram
seen t k = seen_of (find (holds k) (live t))

abbrev pub room_of : ℕ → Option Entry → Bool
room_of count none = ltb count max_entries
room_of count (some e) = ltb e.frag_count max_frags

-- There is room for a fragment of the key: in its entry, or for a new entry.
abbrev pub has_room : Table → Key → Bool
has_room t k = room_of t.count (find (holds k) (live t))

abbrev pub is_same : Key → Key → Bool
is_same k k' = k.src == k'.src && (k.dst == k'.dst && (k.ip_id == k'.ip_id && k.proto == k'.proto))

-- The two arrays have their 16 elements.
abbrev pub IsEntry : Entry → Type 0
IsEntry e = (length e.frag_offsets ≡ 16) × (length e.frag_sizes ≡ 16)

pub is_complete-seen : (t : Table) (k : Key) → is_complete t k ≡ (seen t k).complete
unfolding is_complete find_entry
is_complete-seen t k = elim (Option-cases (scan (holds k) t.count t.entries)) [
  | inl e ↦
      let f = rw e at (scan-Finds (holds k) t.count t.entries) in
      rw (e, is_complete, find-none (holds k) (live t) (Fails-take (holds k) t.count t.entries f))
        refl
  | inr (i, e) ↦
      let (x, f) = rw e at (scan-Finds (holds k) t.count t.entries) in
      let here : get_or t.entries i zeroed ≡ x =
        some-injective _ _ (sym (get_elem?-eq-get_or t.entries i zeroed f.inside) ∙ f.at) in
      rw (e, is_complete, here, find-at (holds k) t.count t.entries i x f.below f.at f.hit f.before)
        refl
]

or_true : (b : Bool) → b || true ≡ true
or_true false = refl
or_true true = refl

or_false : (b : Bool) → b || false ≡ b
or_false false = refl
or_false true = refl

set-end :
    (x n : ℕ) (xs : List ℕ)
    → length xs ≡ 16
    → n < max_frags
    → take (add8 n 1) (set xs n x) ≡ take n xs ++ x ∷ []
set-end x n xs v h =
    let next : add8 n 1 ≡ suc n = omega arith in rw next (take-set_end n xs x (omega (arith, v, h)))

module _ (now offset size : ℕ) (more : Bool) where
  -- An entry with a fragment more
  abbrev pub filled : Entry → Entry
  filled e =
      let e' = placed now offset size more e in
      if is_covered e' then record e' { complete = true } else e'

  covers-placed :
      (e : Entry)
      → IsEntry e
      → e.frag_count < max_frags
      → is_covered (placed now offset size more e)
        ≡ covers (joined now offset size more (datagram e))
  unfolding is_covered
  covers-placed e v h =
      let s =
        covered-sum (add8 e.frag_count 1) (set e.frag_sizes e.frag_count size) 0 (omega arith)
        ∙ ap (λ xs. (0 + sum xs) % 2 ^ 16) (set-end size e.frag_count e.frag_sizes v.1 h)
        ∙ ap (λ n. n % 2 ^ 16) (omega arith) in
      rw s refl

  pub datagram-filled :
      (e : Entry)
      → IsEntry e
      → e.frag_count < max_frags
      → datagram (filled e) ≡ joined now offset size more (datagram e)
  datagram-filled e v h =
      let same = covers-placed e v h in
      elim (Bool-cases (is_covered (placed now offset size more e))) [
        | inl done ↦
            rw
              (
                done,
                set-end offset e.frag_count e.frag_offsets v.0 h,
                set-end size e.frag_count e.frag_sizes v.1 h,
                sym same ∙ done,
                or_true e.complete,
              )
              refl
        | inr open_e ↦
            rw
              (
                open_e,
                set-end offset e.frag_count e.frag_offsets v.0 h,
                set-end size e.frag_count e.frag_sizes v.1 h,
                sym same ∙ open_e,
                or_false e.complete,
              )
              refl
      ]

  pub holds-filled : (k : Key) (e : Entry) → holds k (filled e) ≡ holds k e
  holds-filled k e = ground arith

  -- The table with the entry of a slot filled
  abbrev pub filled_at : Table → ℕ → Entry → Table
  filled_at t i e = record t {
    entries = set t.entries i (filled e);
    reassembled =
        if covers (joined now offset size more (datagram e))
        then add64 t.reassembled 1
        else t.reassembled;
  }

  pub add_fragment_lem :
      (t : Table) (i : ℕ) (e : Entry)
      → IsEntry e
      → e.frag_count < max_frags
      → add_fragment now t i e offset size more ≡ (success, filled_at t i e)
  unfolding add_fragment
  add_fragment_lem t i e v h =
      let room : leb max_frags e.frag_count ≡ false = ground arith in
      let same = covers-placed e v h in
      elim (Bool-cases (is_covered (placed now offset size more e))) [
        | inl done ↦ rw (room, done, sym same ∙ done) refl
        | inr open_e ↦ rw (room, open_e, sym same ∙ open_e) refl
      ]
