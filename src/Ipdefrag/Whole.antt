-- ===== src/Ipdefrag/Whole.antt =====
-- src/ipdefrag.c on the fragments of one datagram: what `ipdefrag_get` returns of what was added.
use pktsnare.Common.{
  ℕ, zero, suc, ◌+◌, ◌^◌, ◌≤◌, ◌<◌, ◌≡◌, refl, sym, ap, subst, inl, inr, Bool, true, false, Option,
  none, some, List, [], ◌∷◌, ◌++◌, arith, ltb, if◌then◌else◌, Bool-cases, length, take, replicate,
  take_all, add16,
}
use mathlib.Core.List.{append-nil}
use pktsnare.Common.Slices.{drop_all}
use pktsnare.Ipdefrag.{
  Status, complete, pending, Entry, Table, Key, holds, grown, copy_in, receive, add_to_entry, add,
}
use pktsnare.Ipdefrag.Writes.{length-grown}

-- The calls of `ipdefrag_add` that a datagram makes whose pieces `cs` and then `last` come in their
-- order from `offset` on. Memory is given each time, with `fresh` in it.
unfoldable pub deliver :
    Table → Key → ℕ → List (List ℕ) → List ℕ → List ℕ → Option (List Status × Table)
deliver t k offset [] last fresh = elim (add t k offset false last (length last) true fresh) [
  | none ↦ none
  | some (status, t') ↦ some (status ∷ [], t')
]
deliver t k offset (c ∷ cs) last fresh = elim (add t k offset true c (length c) true fresh) [
  | none ↦ none
  | some (status, t') ↦ elim (deliver t' k (offset + length c) cs last fresh) [
    | none ↦ none
    | some (statuses, t'') ↦ some (status ∷ statuses, t'')
  ]
]

abbrev pub joined : List (List ℕ) → List ℕ
joined [] = []
joined (c ∷ cs) = c ++ joined cs

abbrev pub waits : List (List ℕ) → List Status
waits [] = complete ∷ []
waits (c ∷ cs) = pending ∷ waits cs

take-take : (xs ys : List ℕ) (m n : ℕ) → n ≡ length xs → n ≤ m → take n (take m (xs ++ ys)) ≡ xs
take-take [] ys m zero e h = refl
take-take [] ys m (suc n) e h = absurd (omega arith)
take-take (x ∷ xs) ys m zero e h = absurd (omega arith)
take-take (x ∷ xs) ys zero (suc n) e h = absurd (omega arith)
take-take (x ∷ xs) ys (suc m) (suc n) e h =
    ap (◌∷◌ x) (take-take xs ys m n (omega arith) (omega arith))

-- What has come of the datagram is the beginning of it.
pub record Holds (k : Key) (e : Entry) (got : List ℕ) : Type 0 where
  pub named : holds k e ≡ true
  pub same : e.bytes ≡ got
  pub sized : e.buf_len ≡ length got
  pub all : e.received ≡ length got
  pub unfinished : e.last_seen ≡ false

-- `memcpy` at the end of what has come
copy_in-end :
    (bytes got c : List ℕ) (n : ℕ)
    → n ≡ length got
    → take n bytes ≡ got
    → length bytes ≡ n + length c
    → copy_in bytes n c (length c) ≡ some (got ++ c)
unfolding copy_in
copy_in-end bytes got c n e start size =
    rw
      (
        start,
        take_all c (length c) (omega arith),
        drop_all bytes (n + length c) (omega arith),
        append-nil c,
      )
      (ground arith)

abbrev pub extended : Entry → List ℕ → List ℕ → Bool → Entry
extended e got c more = record e {
  bytes = got ++ c;
  buf_len = length got + length c;
  received = length got + length c;
  total_len = if more then e.total_len else length got + length c;
  last_seen = if more then e.last_seen else true;
}

receive-end :
    (k : Key) (e : Entry) (got c : List ℕ) (more : Bool) (bytes : List ℕ)
    → Holds k e got
    → take (length got) bytes ≡ got
    → length bytes ≡ length got + length c
    → receive
        (record e { bytes = bytes; buf_len = length got + length c })
        (length got)
        (length got + length c)
        more
        c
        (length c)
      ≡ some (if more then pending else complete, extended e got c more)
unfolding receive
receive-end k e got c more bytes w start size =
    rw (copy_in-end bytes got c (length got) refl start size, receive)
      (ground (arith, w.unfinished, w.all))

pub add_to_entry-end :
    (k : Key) (e : Entry) (got c : List ℕ) (more : Bool) (fresh : List ℕ)
    → Holds k e got
    → length got + length c < 2 ^ 16
    → add_to_entry e (length got) more c (length c) true fresh
      ≡ some (if more then pending else complete, extended e got c more)
unfolding add_to_entry
add_to_entry-end k e got c more fresh w small =
    let wide : add16 (length got) (length c) ≡ length got + length c = omega arith in
    rw (wide, add_to_entry)
      (elim (Bool-cases (ltb e.buf_len (length got + length c))) [
        | inl grows ↦
            rw (grows, add_to_entry)
              (receive-end k e got c more (grown (length got + length c) fresh e.bytes) w
                (rw w.same (
                  take-take got (fresh ++ replicate (length got + length c) 0)
                    (length got + length c) (length got) refl (omega arith)))
                (length-grown (length got + length c) fresh e.bytes))
        | inr fits ↦
            let none_left : e.buf_len ≡ length got + length c = ground (arith, w.sized) in
            rw (fits, add_to_entry)
              (subst
                (λ n.
                  receive (record e { buf_len = n }) (length got) (length got + length c) more c
                    (length c)
                  ≡ some (if more then pending else complete, extended e got c more))
                (sym none_left)
                (receive-end k e got c more e.bytes w
                  (rw w.same (take_all got (length got) (omega arith)))
                  (omega (arith, w.sized, ap length w.same))))
      ])
