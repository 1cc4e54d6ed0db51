-- ===== src/Dnstrack/Laws.antt =====
-- What a client of src/dnstrack.c sees of answers, expiry and lookups.
use pktsnare.Common.{
  ℕ, ◌+◌, ◌%◌, ◌^◌, ◌<◌, ◌≡◌, refl, ◌⊎◌, inl, inr, true, false, not, List, [], ◌∷◌, Perm, some,
  arith, length, take, set, modify-set, modify-eq-set, get_elem?-set_self, add64, leb, ◌==◌,
  ==_refl, Option-cases, get_elem?,
}
use pktsnare.Common.Filter.{keep, count_if}
use pktsnare.Common.Int.{success, failure}
use pktsnare.Table.Scan.{scan, Fails, IsFirst, scan-Finds, scan-set_end}
use pktsnare.Table.Packed.{sweep_lem, gone_all}
use pktsnare.Dnstrack.{
  Ctx, Entry, query, waits, answer, stale, add_query, match_response, expire, lookup,
}
use pktsnare.Dnstrack.Invariant.{IsValid}

-- The entries in use.
abbrev pub live : Ctx → List Entry
live c = take c.count c.entries

-- In a valid context, expiry keeps the entries that are not older than the time to live, each as
-- often as it was there, removes all others, and counts those; the other counters stay.
pub expire-queries :
    (c : Ctx) (now : ℕ)
    → IsValid c
    → let c' = expire c now in
      Perm (live c') (keep (λ e. not (stale now c.ttl_seconds e)) (live c))
      × (c'.expired ≡ (c.expired + count_if (stale now c.ttl_seconds) (live c)) % 2 ^ 64)
      × (c'.total_queries ≡ c.total_queries)
      × (c'.total_responses ≡ c.total_responses)
unfolding expire
expire-queries c now v =
    let w =
      sweep_lem (stale now c.ttl_seconds) (λ e. true) c.count c.expired c.entries
        (omega (arith, v.space, v.bounded)) v.expired_in in
    (w.live, omega (arith, w.tally, gone_all (stale now c.ttl_seconds) (live c)), refl, refl)

-- A response goes to the first entry of its transaction that still waits, which alone changes; it
-- fails, and changes nothing, exactly where no entry waits for it.
pub match_response_lem :
    (c : Ctx) (txid ip : ℕ)
    → ((match_response c txid ip ≡ (failure, c))
        × ((i : ℕ) (e : Entry)
            → i < c.count
            → get_elem? c.entries i ≡ some e
            → waits txid e ≡ false))
      ⊎ ((i : ℕ) × (e : Entry) × IsFirst (waits txid) c.count c.entries i e
          × (match_response c txid ip ≡ (
            success,
            record c {
              entries = set c.entries i (record e { answered = true; resolved_ip = ip });
              total_responses = add64 c.total_responses 1;
            },
          )))
unfolding match_response
match_response_lem c txid ip = elim (Option-cases (scan (waits txid) c.count c.entries)) [
  | inl e ↦ inl (rw (e, match_response), rw e at (scan-Finds (waits txid) c.count c.entries))
  | inr (i, e) ↦
      let f = rw e at (scan-Finds (waits txid) c.count c.entries) in
      inr (i, f.0, f.1, rw (e, match_response, modify-eq-set c.entries i (answer ip) f.1.at))
]

none_waits : (txid : ℕ) (es : List Entry) → Fails (λ e. e.txid == txid) es → Fails (waits txid) es
none_waits txid [] h = tt
none_waits txid (e ∷ es) h = (ground arith, none_waits txid es h.1)

module _ (c : Ctx) (q : Entry) (ip : ℕ) where
  -- The context after `add_query` of `q`, and after its answer.
  abbrev queried : Ctx
  queried = record c {
    entries = set c.entries c.count q;
    count = c.count + 1;
    total_queries = add64 c.total_queries 1;
  }

  abbrev resolved : Ctx
  resolved = record queried {
    entries = set c.entries c.count (answer ip q);
    total_responses = add64 c.total_responses 1;
  }

  match_response-queried :
      c.count < length c.entries
      → q.answered ≡ false
      → Fails (λ e. e.txid == q.txid) (live c)
      → match_response queried q.txid ip ≡ (success, resolved)
  unfolding match_response
  match_response-queried room open_q new =
      let found =
        scan-set_end (waits q.txid) c.count c.entries q (none_waits q.txid (live c) new) room
          (rw (open_q, ==_refl q.txid)) in
      rw (found, match_response, modify-set c.entries c.count q (answer ip))

  lookup-resolved :
      c.count < length c.entries
      → Fails (λ e. e.txid == q.txid) (live c)
      → lookup resolved q.txid ≡ some (answer ip q)
  unfolding lookup
  lookup-resolved room new =
      let found =
        scan-set_end (λ e. e.txid == q.txid) c.count c.entries (answer ip q) new room
          (==_refl q.txid) in
      rw (found, lookup) (get_elem?-set_self c.entries c.count (answer ip q) room)

add_query-room :
    (c : Ctx) (now txid : ℕ) (qname : List ℕ) (qtype src_ip : ℕ)
    → c.count < 256
    → add_query c now txid qname qtype src_ip
      ≡ (success, queried c (query now txid qname qtype src_ip) 0)
unfolding add_query
add_query-room c now txid qname qtype src_ip room =
    let free : leb 256 c.count ≡ false = ground arith in rw free

-- Where a valid array has room and holds no entry of the transaction, a query is recorded, its
-- answer is accepted, and a lookup then finds the query with the address that the answer gave.
pub lookup-match_response-add_query :
    (c : Ctx) (now txid : ℕ) (qname : List ℕ) (qtype src_ip ip : ℕ)
    → IsValid c
    → c.count < 256
    → Fails (λ e. e.txid == txid) (live c)
    → let (added, c1) = add_query c now txid qname qtype src_ip in
      let (matched, c2) = match_response c1 txid ip in
      (added ≡ success)
      × (matched ≡ success)
      × (lookup c2 txid ≡ some (answer ip (query now txid qname qtype src_ip)))
lookup-match_response-add_query c now txid qname qtype src_ip ip v room new =
    let inside : c.count < length c.entries = omega (arith, v.space) in
    let q = query now txid qname qtype src_ip in
    rw (add_query-room c now txid qname qtype src_ip room) (
      rw (match_response-queried c q ip inside refl new)
        (refl, refl, lookup-resolved c q ip inside new))
