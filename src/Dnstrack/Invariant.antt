-- ===== src/Dnstrack/Invariant.antt =====
-- The invariant of src/dnstrack.c: the bounds of its array, and the balance of its counters.
use pktsnare.Common.{
  ℕ, ◌+◌, ◌%◌, ◌^◌, ◌≤◌, ◌<◌, ◌≡◌, ◌∙◌, inl, inr, true, List, [], ◌∷◌, arith, Option-cases, length,
  take, length-set, length-modify, length-replicate,
}
use pktsnare.Common.Int.{ℤ}
use pktsnare.Table.Scan.{scan}
use pktsnare.Table.Packed.{sweep, Swept, sweep_lem, count-Swept, gone_all}
use pktsnare.Dnstrack.{
  Ctx, max_entries, zeroed, init, reset, query, waits, answer, stale, add_query, match_response,
  expire,
}

-- Every query that was counted is still in the array or was counted as expired.
pub record IsValid (c : Ctx) : Type 0 where
  pub space : length c.entries ≡ max_entries
  pub bounded : c.count ≤ max_entries
  pub expired_in : c.expired < 2 ^ 64
  pub balance : c.total_queries ≡ (c.count + c.expired) % 2 ^ 64

pub init-IsValid : (ttl : ℤ) → IsValid (init ttl)
unfolding init
init-IsValid ttl = record {
  space = length-replicate max_entries zeroed;
  bounded = omega arith;
  expired_in = omega arith;
  balance = omega arith;
}

pub reset-IsValid : (c : Ctx) → IsValid (reset c)
unfolding reset
reset-IsValid c = record {
  space = length-replicate max_entries zeroed;
  bounded = omega arith;
  expired_in = omega arith;
  balance = omega arith;
}

pub add_query-IsValid :
    (c : Ctx) (now txid : ℕ) (qname : List ℕ) (qtype src_ip : ℕ)
    → IsValid c
    → IsValid (add_query c now txid qname qtype src_ip).1
unfolding add_query
add_query-IsValid c now txid qname qtype src_ip v =
    ground (arith, length-set c.entries c.count (query now txid qname qtype src_ip))

pub match_response-IsValid :
    (c : Ctx) (txid ip : ℕ) → IsValid c → IsValid (match_response c txid ip).1
unfolding match_response
match_response-IsValid c txid ip v = elim (Option-cases (scan (waits txid) c.count c.entries)) [
  | inl e ↦ rw (e, match_response) v
  | inr (i, e) ↦
      rw (e, match_response)
        (record {
          space = length-modify c.entries i (answer ip) ∙ v.space;
          bounded = v.bounded;
          expired_in = v.expired_in;
          balance = v.balance;
        })
]

pub expire-IsValid : (c : Ctx) (now : ℕ) → IsValid c → IsValid (expire c now)
unfolding expire
expire-IsValid c now v = record {
  space = w.space ∙ v.space;
  bounded = omega (arith, w.shrinks, v.bounded);
  expired_in = omega (arith, w.tally);
  balance = omega (
    arith,
    w.tally,
    v.balance,
    gone_all (stale now c.ttl_seconds) (take c.count c.entries),
    count-Swept (stale now c.ttl_seconds) (λ e. true) c.count c.expired c.entries w fits,
  );
}
  where
    fits : c.count ≤ length c.entries
    fits = omega (arith, v.space, v.bounded)

    w :
        Swept
          (stale now c.ttl_seconds)
          (λ e. true)
          c.count
          c.entries
          c.expired
          (sweep (stale now c.ttl_seconds) (λ e. true) c.count 0 c.entries c.expired)
    w =
        sweep_lem (stale now c.ttl_seconds) (λ e. true) c.count c.expired c.entries fits
          v.expired_in

-- The calls that change the context, with the time at which they are made.
pub data Call : Type 0 where
  queries : ℕ → ℕ → List ℕ → ℕ → ℕ → Call
  answers : ℕ → ℕ → Call
  expires : ℕ → Call
  resets : Call

step : Ctx → Call → Ctx
step c (queries now txid qname qtype src_ip) = (add_query c now txid qname qtype src_ip).1
step c (answers txid ip) = (match_response c txid ip).1
step c (expires now) = expire c now
step c resets = reset c

unfoldable pub run : Ctx → List Call → Ctx
unfolding step
run c [] = c
run c (k ∷ ks) = run (step c k) ks

step-IsValid : (c : Ctx) (k : Call) → IsValid c → IsValid (step c k)
unfolding step
step-IsValid c (queries now txid qname qtype src_ip) v =
    add_query-IsValid c now txid qname qtype src_ip v
step-IsValid c (answers txid ip) v = match_response-IsValid c txid ip v
step-IsValid c (expires now) v = expire-IsValid c now v
step-IsValid c resets v = reset-IsValid c

run_from-IsValid : (c : Ctx) (ks : List Call) → IsValid c → IsValid (run c ks)
unfolding run
run_from-IsValid c [] v = v
run_from-IsValid c (k ∷ ks) v = run_from-IsValid (step c k) ks (step-IsValid c k v)

-- After any calls from a fresh context the array has its 256 slots, no more than 256 are in use,
-- and every query counted since the last reset is in use or counted as expired, modulo 2 ^ 64.
pub run-IsValid : (ttl : ℤ) (ks : List Call) → IsValid (run (init ttl) ks)
run-IsValid ttl ks = run_from-IsValid (init ttl) ks (init-IsValid ttl)
