-- ===== src/Ipdefrag/AnyOrder.antt =====
-- src/ipdefrag.c on pieces of a datagram that come in any order: what there is of it after each piece.
use pktsnare.Common.{
  ℕ, ◌+◌, ◌-◌, ◌^◌, ◌≤◌, ◌<◌, ◌≡◌, refl, sym, ap, ◌∙◌, inl, inr, Bool, true, ◌&&◌, ◌||◌, some, List,
  ◌++◌, arith, ltb, leb, if◌then◌else◌, Bool-cases, length, get_elem?, take, drop, length-append,
  length-take, take_all, add16,
}
use pktsnare.Common.Slices.{length-drop}
use pktsnare.Ipdefrag.{
  Status, complete, pending, Entry, Key, holds, grown, copy_in, receive, add_to_entry,
}
use pktsnare.Ipdefrag.Writes.{length-grown}
use pktsnare.Ipdefrag.Cover.{
  Piece, end_of, IsPart, spans, written, get_elem?-written_there, get_elem?-written_ne,
  get_elem?-grown,
}

-- The entry has the datagram's bytes wherever a piece has covered it, and knows the end if that is
-- covered.
pub record Good (whole : List ℕ) (cov : ℕ → Bool) (e : Entry) : Type 0 where
  pub sized : e.buf_len ≡ length e.bytes
  pub right : (j : ℕ) → cov j ≡ true → get_elem? e.bytes j ≡ get_elem? whole j
  pub inside : (j : ℕ) → cov j ≡ true → j < length e.bytes
  pub total : e.last_seen ≡ true → e.total_len ≡ length whole
  pub ended : cov (length whole - 1) ≡ true → e.last_seen ≡ true

abbrev pub with_piece : Piece → (ℕ → Bool) → ℕ → Bool
with_piece p cov j = spans p j || cov j

abbrev pub received_entry : Entry → Piece → Entry
received_entry e p = record e {
  bytes = written e.bytes p.offset p.bytes;
  received = e.received + length p.bytes;
  total_len = if p.more then e.total_len else end_of p;
  last_seen = if p.more then e.last_seen else true;
}

length-written :
    (b : List ℕ) (o : ℕ) (c : List ℕ) → o + length c ≤ length b → length (written b o c) ≡ length b
length-written b o c h = omega (
  arith,
  length-append (take o b) (c ++ drop (o + length c) b),
  length-append c (drop (o + length c) b),
  length-take o b,
  length-drop (o + length c) b,
)

copy_in-written :
    (b : List ℕ) (o : ℕ) (c : List ℕ)
    → o + length c ≤ length b
    → copy_in b o c (length c) ≡ some (written b o c)
unfolding copy_in
copy_in-written b o c h = rw (take_all c (length c) (omega arith)) (ground arith)

receive-part :
    (e : Entry) (p : Piece)
    → end_of p ≤ length e.bytes
    → (status : Status) × (receive e p.offset (end_of p) p.more p.bytes (length p.bytes)
        ≡ some (status, received_entry e p))
unfolding receive
receive-part e p h = (
  if (if p.more then e.last_seen else true)
        && leb (if p.more then e.total_len else end_of p) (e.received + length p.bytes)
      then complete
      else pending,
  rw (copy_in-written e.bytes p.offset p.bytes h, receive) refl,
)

right_part :
    (whole : List ℕ) (cov : ℕ → Bool) (e : Entry) (p : Piece) (j : ℕ)
    → Good whole cov e
    → IsPart whole p
    → end_of p ≤ length e.bytes
    → with_piece p cov j ≡ true
    → get_elem? (written e.bytes p.offset p.bytes) j ≡ get_elem? whole j
right_part whole cov e p j g part h c = elim (Bool-cases (spans p j)) [
  | inl here ↦
      get_elem?-written_there e.bytes p.offset p.bytes j h (ground arith) (ground arith)
      ∙ (part.same (j - p.offset) (ground arith) ∙ ap (get_elem? whole) (ground arith))
  | inr there ↦
      get_elem?-written_ne e.bytes p.offset p.bytes j h there ∙ g.right j (ground (arith, c, there))
]

received-Good :
    (whole : List ℕ) (cov : ℕ → Bool) (e : Entry) (p : Piece)
    → Good whole cov e
    → IsPart whole p
    → end_of p ≤ length e.bytes
    → 0 < length whole
    → Good whole (with_piece p cov) (received_entry e p)
received-Good whole cov e p g part h some_ = record {
  sized = g.sized ∙ sym (length-written e.bytes p.offset p.bytes h);
  right = λ j c. right_part whole cov e p j g part h c;
  inside = λ j c. elim (Bool-cases (spans p j)) [
    | inl here ↦ ground (arith, length-written e.bytes p.offset p.bytes h)
    | inr there ↦
        omega
          (arith, g.inside j (ground (arith, c, there)), length-written e.bytes p.offset p.bytes h)
  ];
  total = λ s. elim (Bool-cases p.more) [
    | inl more ↦ rw more (g.total (rw more at s))
    | inr last ↦ rw last (ground (arith, part.last, part.inside))
  ];
  ended = λ c. elim (Bool-cases p.more) [
    | inr last ↦ rw last refl
    | inl more ↦ rw more (g.ended (ground (arith, c, part.last)))
  ];
}

grown-Good :
    (whole : List ℕ) (cov : ℕ → Bool) (e : Entry) (n : ℕ) (fresh : List ℕ)
    → Good whole cov e
    → e.buf_len < n
    → Good whole cov (record e { bytes = grown n fresh e.bytes; buf_len = n })
grown-Good whole cov e n fresh g h = record {
  sized = sym (length-grown n fresh e.bytes);
  right = λ j c.
      get_elem?-grown n fresh e.bytes j (g.inside j c) (omega (arith, g.inside j c, g.sized))
      ∙ g.right j c;
  inside = λ j c. omega (arith, g.inside j c, g.sized, length-grown n fresh e.bytes);
  total = g.total;
  ended = g.ended;
}

-- A piece of the datagram, with memory given, is written where it belongs.
pub add_to_entry-Good :
    (whole : List ℕ) (cov : ℕ → Bool) (k : Key) (e : Entry) (p : Piece) (fresh : List ℕ)
    → Good whole cov e
    → holds k e ≡ true
    → IsPart whole p
    → 0 < length whole
    → length whole < 2 ^ 16
    → (status : Status) × (e' : Entry) × (add_to_entry e p.offset p.more p.bytes
          (length p.bytes)
          true
          fresh
        ≡ some (status, e'))
      × Good whole (with_piece p cov) e'
      × (holds k e' ≡ true)
unfolding add_to_entry
add_to_entry-Good whole cov k e p fresh g named part some_ small =
    let wide : add16 p.offset (length p.bytes) ≡ end_of p = omega (arith, part.inside) in
    rw (wide, add_to_entry)
      (elim (Bool-cases (ltb e.buf_len (end_of p))) [
        | inl grows ↦
            rw (grows, add_to_entry)
              (let e1 : Entry = record e {
                bytes = grown (end_of p) fresh e.bytes;
                buf_len = end_of p;
              } in
                let room : end_of p ≤ length (grown (end_of p) fresh e.bytes) =
                  omega (arith, length-grown (end_of p) fresh e.bytes) in
                let r = receive-part e1 p room in
                (
                  r.0,
                  received_entry e1 p,
                  r.1,
                  received-Good whole cov e1 p
                      (grown-Good whole cov e (end_of p) fresh g (ground arith)) part room some_,
                  named,
                ))
        | inr fits ↦
            rw (fits, add_to_entry)
              (let room : end_of p ≤ length e.bytes = ground (arith, g.sized) in
                let r = receive-part e p room in
                (
                  r.0,
                  received_entry e p,
                  r.1,
                  received-Good whole cov e p g part room some_,
                  named,
                ))
      ])
