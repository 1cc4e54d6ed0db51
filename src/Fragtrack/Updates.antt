-- ===== src/Fragtrack/Updates.antt =====
-- What a change of one entry of src/fragtrack.c does to what is held of each datagram.
use pktsnare.Common.{
  ℕ, ◌+◌, ◌<◌, ◌≡◌, refl, ap, ◌∙◌, inl, inr, true, false, some, [], ◌∷◌, ◌++◌, arith, if◌then◌else◌,
  ==_refl, Bool-cases, length, set, take, take-set_end,
}
use native.Mathlib.Numerals.{add-one}
use pktsnare.Table.Scan.{Fails, IsFirst}
use pktsnare.Table.Find.{
  find, find-append_none, find-append_miss, find_single, find-set_other, find-set_first,
}
use pktsnare.Fragtrack.{Table, Entry, Key, holds, opened}
use pktsnare.Fragtrack.Laws.{live}
use pktsnare.Fragtrack.Datagrams.{datagram, seen_of, seen, is_same}

is_same-eq : (k k' : Key) → is_same k k' ≡ true → k ≡ k'
is_same-eq k k' h =
    let e1 : k.src ≡ k'.src = ground arith in
    let e2 : k.dst ≡ k'.dst = ground arith in
    let e3 : k.ip_id ≡ k'.ip_id = ground arith in let e4 : k.proto ≡ k'.proto = ground arith in cc

holds-other :
    (k k' : Key) (e : Entry) → is_same k k' ≡ false → holds k e ≡ true → holds k' e ≡ false
holds-other k k' e ne h = ground arith

pub opened-holds : (now : ℕ) (k : Key) → holds k (opened now k) ≡ true
opened-holds now k = ground (arith, ==_refl k.src, ==_refl k.dst, ==_refl k.ip_id, ==_refl k.proto)

-- A change of the entry of a key that leaves the key changes what is held of it, and nothing else.
pub seen-set :
    (t : Table) (i : ℕ) (x v : Entry) (k k' : Key)
    → IsFirst (holds k) t.count t.entries i x
    → ((key : Key) → holds key v ≡ holds key x)
    → seen_of (find (holds k') (take t.count (set t.entries i v)))
      ≡ (if is_same k k' then datagram v else seen t k')
seen-set t i x v k k' f same = elim (Bool-cases (is_same k k')) [
  | inl own ↦
      rw (own, ← is_same-eq k k' own)
        (ap seen_of (find-set_first (holds k) t.count t.entries i x v f (same k ∙ f.hit)))
  | inr other ↦
      let off = holds-other k k' x other f.hit in
      rw other
        (ap seen_of (find-set_other (holds k') t.count t.entries i x v f.at off (same k' ∙ off)))
]

pub seen_self :
    (t : Table) (x : Entry) (k k' : Key)
    → find (holds k) (live t) ≡ some x
    → (if is_same k k' then datagram x else seen t k') ≡ seen t k'
seen_self t x k k' e = elim (Bool-cases (is_same k k')) [
  | inl own ↦ rw (own, ← is_same-eq k k' own, e) refl
  | inr other ↦ rw other refl
]

-- So does a new entry behind the others.
pub seen-end :
    (t : Table) (v : Entry) (k k' : Key)
    → Fails (holds k) (live t)
    → t.count < length t.entries
    → holds k v ≡ true
    → seen_of (find (holds k') (take (t.count + 1) (set t.entries t.count v)))
      ≡ (if is_same k k' then datagram v else seen t k')
seen-end t v k k' miss h own_key =
    let grown : take (t.count + 1) (set t.entries t.count v) ≡ live t ++ v ∷ [] =
      rw add-one (take-set_end t.count t.entries v h) in
    elim (Bool-cases (is_same k k')) [
      | inl own ↦
          rw
            (
              own,
              ← is_same-eq k k' own,
              grown,
              find-append_none (holds k) (live t) (v ∷ []) miss,
              find_single (holds k) v own_key,
            )
            refl
      | inr other ↦
          rw
            (
              other,
              grown,
              find-append_miss (holds k') (live t) v (holds-other k k' v other own_key),
            )
            refl
    ]
