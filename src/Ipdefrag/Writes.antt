-- ===== src/Ipdefrag/Writes.antt =====
-- The buffers of src/ipdefrag.c: where its writes and reads stay inside, and where they do not.
use pktsnare.Common.{
  ℕ, ◌+◌, ◌^◌, ◌≤◌, ◌<◌, ◌≡◌, sym, inl, inr, Bool, Option, none, some, List, ◌++◌, arith, ltb,
  Bool-cases, length, get_elem?, take, drop, replicate, length-append, length-replicate,
  length-take, add16,
}
use pktsnare.Common.Slices.{length-drop}
use pktsnare.Ipdefrag.{Status, Entry, Table, max_frags, grown, copy_in, receive, add_to_entry}

-- `buf_len` is the length of the buffer and has 16 bits, and the datagram's length is at most that.
pub record IsEntry (e : Entry) : Type 0 where
  pub sized : e.buf_len ≡ length e.bytes
  pub total : e.total_len ≤ e.buf_len
  pub small : e.buf_len < 2 ^ 16

pub record IsValid (t : Table) : Type 0 where
  pub space : length t.entries ≡ max_frags
  pub bound : t.count ≤ max_frags
  pub each : (i : ℕ) (e : Entry) → i < t.count → get_elem? t.entries i ≡ some e → IsEntry e

-- The write of `len` bytes inside the buffer keeps its length.
pub copy_in-inside :
    (bytes : List ℕ) (offset : ℕ) (payload : List ℕ) (len : ℕ)
    → offset + len ≤ length bytes
    → len ≤ length payload
    → (out : List ℕ) × (copy_in bytes offset payload len ≡ some out) × (length out ≡ length bytes)
unfolding copy_in
copy_in-inside bytes offset payload len h p = (
  take offset bytes ++ (take len payload ++ drop (offset + len) bytes),
  ground arith,
  omega (
    arith,
    length-append (take offset bytes) (take len payload ++ drop (offset + len) bytes),
    length-append (take len payload) (drop (offset + len) bytes),
    length-take offset bytes,
    length-take len payload,
    length-drop (offset + len) bytes,
  ),
)

pub length-grown : (n : ℕ) (fresh bytes : List ℕ) → length (grown n fresh bytes) ≡ n
length-grown n fresh bytes = omega (
  arith,
  length-take n (bytes ++ (fresh ++ replicate n 0)),
  length-append bytes (fresh ++ replicate n 0),
  length-append fresh (replicate n 0),
  length-replicate {A = ℕ} n 0,
)

-- The call returns an entry that is in order.
abbrev pub Keeps : Option (Status × Entry) → Type 0
Keeps none = ⊥
Keeps (some (status, e)) = IsEntry e

pub receive-Keeps :
    (e : Entry) (offset : ℕ) (more : Bool) (payload : List ℕ) (len : ℕ)
    → IsEntry e
    → offset + len ≤ e.buf_len
    → len ≤ length payload
    → Keeps (receive e offset (offset + len) more payload len)
unfolding receive
receive-Keeps e offset more payload len v h p =
    let (bytes, copied, same_length) =
      copy_in-inside e.bytes offset payload len (omega (arith, v.sized)) p in
    rw (copied, receive)
      (record { sized = omega (arith, v.sized); total = ground (arith, v.total); small = v.small })

grow-IsEntry :
    (e : Entry) (n : ℕ) (fresh : List ℕ)
    → IsEntry e
    → e.buf_len < n
    → n < 2 ^ 16
    → IsEntry (record e { bytes = grown n fresh e.bytes; buf_len = n })
grow-IsEntry e n fresh v g h = record {
  sized = sym (length-grown n fresh e.bytes);
  total = omega (arith, v.total);
  small = h;
}

pub add_to_entry-Keeps :
    (e : Entry) (offset : ℕ) (more : Bool) (payload : List ℕ) (len : ℕ) (allocated : Bool)
    (fresh : List ℕ)
    → IsEntry e
    → offset + len < 2 ^ 16
    → len ≤ length payload
    → Keeps (add_to_entry e offset more payload len allocated fresh)
unfolding add_to_entry
add_to_entry-Keeps e offset more payload len allocated fresh v h p =
    let wide : add16 offset len ≡ offset + len = omega arith in
    rw (wide, add_to_entry)
      (elim (Bool-cases (ltb e.buf_len (offset + len))) [
        | inr fits ↦
            rw (fits, add_to_entry) (receive-Keeps e offset more payload len v (ground arith) p)
        | inl grows ↦
            rw (grows, add_to_entry)
              (elim (Bool-cases allocated) [
                | inr failed ↦ rw (failed, add_to_entry) v
                | inl given ↦
                    rw (given, add_to_entry)
                      (receive-Keeps _ offset more payload len
                        (grow-IsEntry e (offset + len) fresh v (ground arith) h) (omega arith) p)
              ])
      ])
