-- ===== src/Mactrack/Laws.antt =====
-- The counter of src/mactrack.c, and what an update, a lookup and an expiry do to the addresses.
use pktsnare.Common.{
  ℕ, ◌+◌, ◌≡◌, refl, sym, ◌∙◌, inl, inr, Bool, not, ◌&&◌, List, map, arith, if◌then◌else◌,
  Option-cases, length, set, take, length-set, modify-eq-set,
}
use pktsnare.Common.Filter.{keep, count_if}
use pktsnare.Common.Int.{ℤ, success, failure}
use pktsnare.Table.Scan.{scan, Fails, IsFirst, scan-Finds}
use pktsnare.Table.Find.{Fails-take}
use pktsnare.Table.Slots.{
  count_if-set_new, count_if-set_same, clear_dead_lem, keep-clear-dead, count_if-clear-dead,
}
use pktsnare.Mactrack.{
  Table, Entry, max_entries, holds, is_free, seen_again, first_sight, dead, wipe, init, claim,
  update, expire,
}

abbrev pub active : Entry → Bool
active e = e.active

-- The counter is the number of slots in use.
pub record IsValid (t : Table) : Type 0 where
  pub space : length t.entries ≡ max_entries
  pub counted : t.count ≡ count_if active t.entries

pub init-IsValid : IsValid init
unfolding init
init-IsValid = record { space = refl; counted = refl }

-- The three ways through an update.
pub data Outcome (now : ℕ) (t : Table) (mac : List ℕ) (ip len : ℕ) : ℤ × Table → Type 0 where
  again :
      {i : ℕ} {e : Entry}
      → IsFirst (holds mac) max_entries t.entries i e
      → Outcome now t mac ip len
          (success, record t { entries = set t.entries i (seen_again now ip len e) })
  fresh :
      {i : ℕ} {e : Entry}
      → Fails (holds mac) (take max_entries t.entries)
      → IsFirst is_free max_entries t.entries i e
      → Outcome now t mac ip len (
        success,
        record { entries = set t.entries i (first_sight now mac ip len); count = t.count + 1 },
      )
  full :
      Fails (holds mac) (take max_entries t.entries)
      → Fails is_free (take max_entries t.entries)
      → Outcome now t mac ip len (failure, t)

claim-Outcome :
    (now : ℕ) (t : Table) (mac : List ℕ) (ip len : ℕ)
    → Fails (holds mac) (take max_entries t.entries)
    → Outcome now t mac ip len (claim now t mac ip len)
unfolding claim
claim-Outcome now t mac ip len miss = elim (Option-cases (scan is_free max_entries t.entries)) [
  | inl e ↦
      let f = rw e at (scan-Finds is_free max_entries t.entries) in
      rw (e, claim) (full miss (Fails-take is_free max_entries t.entries f))
  | inr (i, e) ↦
      let f = rw e at (scan-Finds is_free max_entries t.entries) in rw (e, claim) (fresh miss f.1)
]

-- An update goes one of three ways: the first slot of the address is brought up to date, or, where
-- there is none, the first free slot takes it, or, where there is no free slot either, it fails and
-- the table stays.
pub update-Outcome :
    (now : ℕ) (t : Table) (mac : List ℕ) (ip len : ℕ)
    → Outcome now t mac ip len (update now t mac ip len)
unfolding update
update-Outcome now t mac ip len = elim (Option-cases (scan (holds mac) max_entries t.entries)) [
  | inl e ↦
      let f = rw e at (scan-Finds (holds mac) max_entries t.entries) in
      rw (e, update)
        (claim-Outcome now t mac ip len (Fails-take (holds mac) max_entries t.entries f))
  | inr (i, e) ↦
      let f = rw e at (scan-Finds (holds mac) max_entries t.entries) in
      rw (e, update, modify-eq-set t.entries i (seen_again now ip len) f.1.at) (again f.1)
]

Outcome-IsValid :
    {now : ℕ} {t : Table} {mac : List ℕ} {ip len : ℕ} {out : ℤ × Table}
    → Outcome now t mac ip len out
    → IsValid t
    → IsValid out.1
Outcome-IsValid {now} {t} {mac} {ip} {len} (again {i} {e} f) v = record {
  space = length-set t.entries i (seen_again now ip len e) ∙ v.space;
  counted =
      v.counted ∙ sym (count_if-set_same active t.entries i (seen_again now ip len e) f.at refl);
}
Outcome-IsValid {now} {t} {mac} {ip} {len} (fresh {i} {e} miss f) v = record {
  space = length-set t.entries i (first_sight now mac ip len) ∙ v.space;
  counted = omega (
    arith,
    v.counted,
    count_if-set_new active t.entries i (first_sight now mac ip len) f.at (ground (arith, f.hit))
        refl,
  );
}
Outcome-IsValid (full miss none_free) v = v

-- An update keeps a valid table valid: its 256 slots, and a counter equal to the number of slots
-- in use.
pub update-counted :
    (now : ℕ) (t : Table) (mac : List ℕ) (ip len : ℕ)
    → IsValid t
    → IsValid (update now t mac ip len).1
update-counted now t mac ip len v = Outcome-IsValid (update-Outcome now t mac ip len) v

-- In a valid table, an expiry keeps the addresses heard of within the age, in their order and
-- unchanged, forgets all others, and lowers the counter by the number of those.
pub expire-keep :
    (now : ℕ) (t : Table) (max_age : ℤ)
    → IsValid t
    → let t' = expire now t max_age in
      (keep active t'.entries ≡ keep (λ e. active e && not (dead now max_age e)) t.entries)
      × (t'.count ≡ count_if active t'.entries)
      × (t'.count + count_if (dead now max_age) t.entries ≡ t.count)
unfolding expire
expire-keep now t max_age v = rw (clear_dead_lem (dead now max_age) wipe t.entries t.count) (
  keep-clear-dead (dead now max_age) wipe active (λ e. refl) t.entries,
  omega (arith, v.counted, total),
  omega (arith, v.counted, total),
)
  where
    total :
        count_if active (map (λ e. if dead now max_age e then wipe e else e) t.entries)
          + count_if (dead now max_age) t.entries
        ≡ count_if active t.entries
    total =
        count_if-clear-dead (dead now max_age) wipe active (λ e. refl) (λ e h. ground arith)
          t.entries
