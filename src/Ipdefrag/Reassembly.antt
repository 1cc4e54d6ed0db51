-- ===== src/Ipdefrag/Reassembly.antt =====
-- src/ipdefrag.c on the pieces of a datagram in any order, and more than once.
use pktsnare.Common.{
  ℕ, suc, ◌-◌, ◌^◌, ◌≤◌, ◌<◌, ◌≡◌, refl, ap₂, ◌∙◌, Bool, true, false, ◌||◌, Option, none, some,
  List, [], ◌∷◌, arith, length, get_elem?, get_or-set_self, take, All,
}
use mathlib.Core.Option.{some-injective}
use pktsnare.Table.Scan.{Fails}
use pktsnare.Ipdefrag.{
  complete, Entry, Table, Key, max_frags, zeroed, opened, holds, add, get, find_entry, free_entry,
}
use pktsnare.Ipdefrag.Cover.{Piece, IsPart, spans}
use pktsnare.Ipdefrag.AnyOrder.{Good, with_piece, add_to_entry-Good}
use pktsnare.Ipdefrag.Datagram.{
  with_entry, find-with_entry, add-again, add-opens, free-with_entry, find_entry-Fails,
}

-- The calls of `ipdefrag_add` for the pieces, memory with `fresh` in it being given each time
unfoldable pub deliver_parts : Table → Key → List Piece → List ℕ → Option Table
deliver_parts t k [] fresh = some t
deliver_parts t k (p ∷ ps) fresh =
    elim (add t k p.offset p.more p.bytes (length p.bytes) true fresh) [
      | none ↦ none
      | some (status, t') ↦ deliver_parts t' k ps fresh
    ]

-- An index of the datagram that some piece covers
abbrev pub covered : List Piece → ℕ → Bool
covered [] j = false
covered (p ∷ ps) j = spans p j || covered ps j

abbrev all_cov : (ℕ → Bool) → List Piece → ℕ → Bool
all_cov cov [] = cov
all_cov cov (p ∷ ps) = all_cov (with_piece p cov) ps

all_cov-covered :
    (ps : List Piece) (cov : ℕ → Bool) (j : ℕ)
    → covered ps j || cov j ≡ true
    → all_cov cov ps j ≡ true
all_cov-covered [] cov j h = h
all_cov-covered (p ∷ ps) cov j h = all_cov-covered ps (with_piece p cov) j (ground (arith, h))

opened-Good : (whole : List ℕ) (k : Key) → Good whole (λ j. false) (opened k)
opened-Good whole k = record {
  sized = refl;
  right = λ j c. absurd (cc c);
  inside = λ j c. absurd (cc c);
  total = λ s. absurd (cc s);
  ended = λ c. absurd (cc c);
}

-- Two lists with the same elements at the indices of the second one
take_same :
    (xs ys : List ℕ)
    → ((j : ℕ) → j < length ys → get_elem? xs j ≡ get_elem? ys j)
    → take (length ys) xs ≡ ys
take_same xs [] h = refl
take_same [] (y ∷ ys) h = absurd (cc (h 0 (omega arith)))
take_same (x ∷ xs) (y ∷ ys) h =
    ap₂ ◌∷◌ (some-injective _ _ (h 0 (omega arith)))
      (take_same xs ys (λ j l. h (suc j) (omega arith)))

module _ (k : Key) (ys : List Entry) (n : ℕ) (others : Fails (holds k) (take n ys))
    (room : n < length ys) where
  deliver_parts-Good :
      (whole : List ℕ) (ps : List Piece) (fresh : List ℕ) (cov : ℕ → Bool) (e : Entry)
      → Good whole cov e
      → holds k e ≡ true
      → All (IsPart whole) ps
      → 0 < length whole
      → length whole < 2 ^ 16
      → (e' : Entry) × (deliver_parts (with_entry k ys n others room e) k ps fresh
          ≡ some (with_entry k ys n others room e'))
        × Good whole (all_cov cov ps) e'
        × (holds k e' ≡ true)
  unfolding deliver_parts
  deliver_parts-Good whole [] fresh cov e g named parts some_ small = (e, refl, g, named)
  deliver_parts-Good whole (p ∷ ps) fresh cov e g named parts some_ small =
      let r = add_to_entry-Good whole cov k e p fresh g named parts.0 some_ small in
      let ih =
        deliver_parts-Good whole ps fresh (with_piece p cov) r.1 r.3 r.4 parts.1 some_ small in
      (
        ih.0,
        rw
            (
              add-again k ys n others room e p.offset p.more p.bytes (length p.bytes) fresh named
                  r.2,
              deliver_parts,
            )
            ih.1,
        ih.2,
        ih.3,
      )

  get-Good :
      (whole : List ℕ) (cov : ℕ → Bool) (e : Entry) (limit : ℕ)
      → Good whole cov e
      → holds k e ≡ true
      → ((j : ℕ) → j < length whole → cov j ≡ true)
      → 0 < length whole
      → length whole ≤ limit
      → get (with_entry k ys n others room e) k limit
        ≡ some (complete, some whole, free_entry (with_entry k ys n others room e) n)
  unfolding get
  get-Good whole cov e limit g named all some_ fits =
      let ended = g.ended (all (length whole - 1) (omega arith)) in
      let total = g.total ended in
      let same = take_same e.bytes whole (λ j l. g.right j (all j l)) in
      let long : length whole ≤ length e.bytes =
        omega (arith, g.inside (length whole - 1) (all (length whole - 1) (omega arith))) in
      rw (find-with_entry k ys n others room e named, get)
        (rw (get_or-set_self ys n e zeroed room) (rw (ended, total, same) (ground (arith, long))))

deliver_parts-opens :
    (t : Table) (k : Key) (ps : List Piece) (fresh : List ℕ)
    → length t.entries ≡ max_frags
    → (room : t.count < max_frags) → (miss : find_entry t k ≡ none)
    → (inside : t.count < length t.entries) → 0 < length ps
    → deliver_parts t k ps fresh
      ≡ deliver_parts
          (with_entry k t.entries t.count (find_entry-Fails t k miss) inside (opened k))
          k
          ps
          fresh
unfolding deliver_parts
deliver_parts-opens t k [] fresh space room miss inside some_ = absurd (omega arith)
deliver_parts-opens t k (p ∷ ps) fresh space room miss inside some_ =
    rw
      (
        add-opens k t.entries t.count (find_entry-Fails t k miss) inside p.offset p.more p.bytes
            (length p.bytes) fresh miss room,
        deliver_parts,
      )
      refl

covered-length : (ps : List Piece) (j : ℕ) → covered ps j ≡ true → 0 < length ps
covered-length [] j h = cc
covered-length (p ∷ ps) j h = omega arith

-- Pieces of a datagram of at least one byte and less than 64 KiB that cover it, in any order, also
-- more than once or with overlaps, each but those that reach the end with more to come, are added,
-- memory being given each time, to a table of 64 slots of which fewer are in use and none is for the
-- datagram: `ipdefrag_get` of src/ipdefrag.c, with a limit that the datagram fits, then returns the
-- datagram, and the entries in use are those from before.
pub get-deliver_parts :
    (t : Table) (k : Key) (whole : List ℕ) (ps : List Piece) (fresh : List ℕ) (limit : ℕ)
    → length t.entries ≡ max_frags
    → t.count < max_frags
    → find_entry t k ≡ none
    → All (IsPart whole) ps
    → ((j : ℕ) → j < length whole → covered ps j ≡ true)
    → 0 < length whole
    → length whole < 2 ^ 16
    → length whole ≤ limit
    → (t' : Table) × (t'' : Table) × (deliver_parts t k ps fresh ≡ some t')
      × (get t' k limit ≡ some (complete, some whole, t''))
      × (t''.count ≡ t.count)
      × (take t.count t''.entries ≡ take t.count t.entries)
get-deliver_parts t k whole ps fresh limit space room miss parts cover some_ small fits =
    let others = find_entry-Fails t k miss in
    let inside : t.count < length t.entries = omega (arith, space, room) in
    let d =
      deliver_parts-Good k t.entries t.count others inside whole ps fresh (λ j. false) (opened k)
        (opened-Good whole k) (ground arith) parts some_ small in
    let all : (j : ℕ) → j < length whole → all_cov (λ j. false) ps j ≡ true =
      λ j l. all_cov-covered ps (λ j. false) j (ground (arith, cover j l)) in
    let freed = free-with_entry k t.entries t.count others inside d.0 in
    (
      _,
      _,
      deliver_parts-opens t k ps fresh space room miss inside (covered-length ps 0 (cover 0 some_))
          ∙ d.1,
      get-Good k t.entries t.count others inside whole (all_cov (λ j. false) ps) d.0 limit d.2 d.3
          all some_ fits,
      freed.0,
      freed.1,
    )
