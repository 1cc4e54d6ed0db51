-- ===== src/Flowtrack/Laws.antt =====
-- The counter of src/flowtrack.c, and what an insertion, an update, a lookup and an expiry do to the
-- flows.
use pktsnare.Common.{
  ℕ, ◌+◌, ◌%◌, ◌^◌, ◌≡◌, refl, sym, ◌∙◌, ◌⊎◌, inl, inr, Bool, false, not, ◌&&◌, none, some, ◌∷◌,
  map, Perm, arith, if◌then◌else◌, Option-cases, length, get_elem?, set, take, length-set,
  get_elem?-some, get_elem?-set_self, modify-eq-set,
}
use pktsnare.Common.Filter.{keep, count_if}
use pktsnare.Table.Scan.{scan, Fails, IsFirst, scan-Finds}
use pktsnare.Table.Slots.{
  keep-set_new, count_if-set_new, count_if-set_same, clear_dead_lem, keep-clear-dead,
  count_if-clear-dead,
}
use pktsnare.Table.Find.{Fails-take}
use pktsnare.Flowtrack.{
  Time, Key, Table, Entry, table_size, is_free, opened, counted, dead, deactivate, init, insert,
  update, expire,
}

abbrev pub active : Entry → Bool
active e = e.active

-- The counter is the number of slots in use.
pub record IsValid (t : Table) : Type 0 where
  pub space : length t.entries ≡ table_size
  pub tally : t.count ≡ count_if active t.entries

pub init-IsValid : IsValid init
unfolding init
init-IsValid = record { space = refl; tally = refl }

-- An insertion into a valid table puts the flow, with no packets, into a free slot, adds it to the
-- flows in use and keeps the table valid; it fails, and changes nothing, where no slot is free.
pub insert-keep :
    (now : Time) (t : Table) (key : Key)
    → IsValid t
    → let (out, t') = insert now t key in
      ((out ≡ none) × (t' ≡ t) × Fails is_free (take table_size t.entries))
      ⊎ ((i : ℕ) × (out ≡ some i)
          × (get_elem? t'.entries i ≡ some (opened now key))
          × Perm (keep active t'.entries) (opened now key ∷ keep active t.entries)
          × IsValid t')
unfolding insert
insert-keep now t key v = elim (Option-cases (scan is_free table_size t.entries)) [
  | inl e ↦
      let f = rw e at (scan-Finds is_free table_size t.entries) in
      rw (e, insert) (inl (refl, refl, Fails-take is_free table_size t.entries f))
  | inr (i, e) ↦
      let f = rw e at (scan-Finds is_free table_size t.entries) in
      rw (e, insert) (inr (added i f.0 f.1))
]
  where
    added :
        (i : ℕ) (e : Entry)
        → IsFirst is_free table_size t.entries i e
        → (j : ℕ) × (some i ≡ some j)
          × (get_elem? (set t.entries i (opened now key)) j ≡ some (opened now key))
          × Perm
              (keep active (set t.entries i (opened now key)))
              (opened now key ∷ keep active t.entries)
          × IsValid (record { entries = set t.entries i (opened now key); count = t.count + 1 })
    added i e f =
        let off : active e ≡ false = ground (arith, f.hit) in
        (
          i,
          refl,
          get_elem?-set_self t.entries i (opened now key) f.inside,
          keep-set_new active t.entries i (opened now key) f.at off refl,
          record {
            space = length-set t.entries i (opened now key) ∙ v.space;
            tally = omega (
              arith,
              v.tally,
              count_if-set_new active t.entries i (opened now key) f.at off refl,
            );
          },
        )

-- An update counts the packet in its slot, in 64 bits, and no slot comes into use or goes out of it.
pub update-tally :
    (now : Time) (t : Table) (i pkt_len : ℕ) {e : Entry}
    → IsValid t
    → get_elem? t.entries i ≡ some e
    → let t' = update now t i pkt_len in
      (get_elem? t'.entries i
        ≡ some (record e {
          pkt_count = (e.pkt_count + 1) % 2 ^ 64;
          byte_count = (e.byte_count + pkt_len) % 2 ^ 64;
          last_seen = now;
        }))
      × IsValid t'
unfolding update
update-tally now t i pkt_len {e} v at = rw (modify-eq-set t.entries i (counted now pkt_len) at) (
  get_elem?-set_self t.entries i (counted now pkt_len e) (get_elem?-some t.entries i at),
  record {
    space = length-set t.entries i (counted now pkt_len e) ∙ v.space;
    tally = v.tally ∙ sym (count_if-set_same active t.entries i (counted now pkt_len e) at refl);
  },
)

-- In a valid table, an expiry keeps the flows idle for less than the timeout, in their order and
-- unchanged, ends all others, and lowers the counter by their number. The idle time is taken
-- modulo 2^32 seconds.
pub expire-flows :
    (now : Time) (t : Table) (timeout_sec : ℕ)
    → IsValid t
    → let t' = expire now t timeout_sec in
      (keep active t'.entries ≡ keep (λ e. active e && not (dead now timeout_sec e)) t.entries)
      × (t'.count ≡ count_if active t'.entries)
      × (t'.count + count_if (dead now timeout_sec) t.entries ≡ t.count)
unfolding expire
expire-flows now t timeout_sec v =
    rw (clear_dead_lem (dead now timeout_sec) deactivate t.entries t.count) (
      keep-clear-dead (dead now timeout_sec) deactivate active (λ e. refl) t.entries,
      omega (arith, v.tally, total),
      omega (arith, v.tally, total),
    )
  where
    total :
        count_if active (map (λ e. if dead now timeout_sec e then deactivate e else e) t.entries)
          + count_if (dead now timeout_sec) t.entries
        ≡ count_if active t.entries
    total =
        count_if-clear-dead (dead now timeout_sec) deactivate active (λ e. refl)
          (λ e h. ground arith) t.entries
