-- ===== src/Session/Laws.antt =====
-- When a session of src/session.c is found, and when its counter is right.
use pktsnare.Common.{
  get_or-set_self, ℕ, ◌<◌, ◌≡◌, refl, ◌↔◌, inl, inr, Bool, true, false, some, arith, ==_refl,
  Bool-cases, length, get_elem?, get_or, set,
}
use pktsnare.Common.Filter.{count_if}
use pktsnare.Table.Slots.{count_if-set_new, count_if-set_same}
use pktsnare.Session.{
  Entry, Sessions, Key, zeroed, session_hash, holds, lookup, opened, create, get_count,
}

abbrev pub active : Entry → Bool
active e = e.active

session_hash-in : (size : ℕ) (k : Key) → 0 < size → session_hash size k < size
unfolding session_hash
session_hash-in size k h = omega arith

holds-opened : (now : ℕ) (k : Key) → holds k (opened now k) ≡ true
holds-opened now k = ground (
  arith,
  ==_refl k.src_ip,
  ==_refl k.dst_ip,
  ==_refl k.src_port,
  ==_refl k.dst_port,
  ==_refl k.proto,
)

-- In a table that is not empty, a session that has been created is found under its own key, in the
-- slot that the creation returned.
pub lookup-create :
    (size now : ℕ) (s : Sessions) (k : Key)
    → 0 < size
    → length s.table ≡ size
    → let (i, s') = create size now s k in lookup size s' k ≡ some i
unfolding lookup create
lookup-create size now s k h space =
    let i = session_hash size k in
    let inside : i < length s.table = omega (arith, session_hash-in size k h) in
    let here : get_or (set s.table i (opened now k)) i zeroed ≡ opened now k =
      get_or-set_self s.table i (opened now k) zeroed inside in
    rw (here, holds-opened now k) refl

-- Of a table whose counter is the number of active slots, a creation keeps the counter right exactly
-- if the slot was not active: a session that takes the slot of another one is counted twice.
pub create-count :
    (size now : ℕ) (s : Sessions) (k : Key) {e : Entry}
    → get_elem? s.table (session_hash size k) ≡ some e
    → s.count ≡ count_if active s.table
    → let s' = (create size now s k).1 in
      (get_count s' ≡ count_if active s'.table) ↔ (e.active ≡ false)
unfolding create
create-count size now s k {e} at counted = elim (Bool-cases (e.active)) [
  | inl on ↦
      let same = count_if-set_same active s.table (session_hash size k) (opened now k) at on in
      rw on (λ h. absurd (omega (arith, h, same, counted)), λ h. absurd (cc h))
  | inr off ↦
      let more = count_if-set_new active s.table (session_hash size k) (opened now k) at off refl in
      rw off (λ h. refl, λ h. omega (arith, more, counted))
]
