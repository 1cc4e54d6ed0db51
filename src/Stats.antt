-- ===== src/Stats.antt =====
-- src/stats.c and src/stats.h: the counters of a capture. The context is there (no NULL), and
-- `time(NULL)` is the argument `now`. The printing of src/stats.c, in floating point, is left out.
mod Tests
use pktsnare.Common.{
  ℕ, ◌+◌, ◌%◌, ◌^◌, ◌≡◌, inl, inr, List, [], ◌∷◌, arith, ◌==◌, if◌then◌else◌, Bool-cases, add64,
}
use pktsnare.Common.Filter.{keep, count_if}

-- `pktsnare_stats_t`
pub record Stats : Type 0 where
  pub total_packets : ℕ
  pub total_bytes : ℕ
  pub tcp_packets : ℕ
  pub udp_packets : ℕ
  pub icmp_packets : ℕ
  pub arp_packets : ℕ
  pub other_packets : ℕ
  pub dropped_packets : ℕ
  pub start_time : ℕ

abbrev pub init : ℕ → Stats
init now = record {
  total_packets = 0;
  total_bytes = 0;
  tcp_packets = 0;
  udp_packets = 0;
  icmp_packets = 0;
  arp_packets = 0;
  other_packets = 0;
  dropped_packets = 0;
  start_time = now;
}

-- The `switch` of `stats_update`
unfoldable pub count_proto : Stats → ℕ → Stats
count_proto s proto =
    if proto == 6
    then record s { tcp_packets = add64 s.tcp_packets 1 }
    else if proto == 17
    then record s { udp_packets = add64 s.udp_packets 1 }
    else if proto == 1
    then record s { icmp_packets = add64 s.icmp_packets 1 }
    else if proto == 0x0806
    then record s { arp_packets = add64 s.arp_packets 1 }
    else record s { other_packets = add64 s.other_packets 1 }

unfoldable pub update : Stats → ℕ → ℕ → Stats
update s proto pkt_len =
    count_proto
      (record s {
        total_packets = add64 s.total_packets 1;
        total_bytes = add64 s.total_bytes pkt_len;
      })
      proto

unfoldable pub drop_packet : Stats → Stats
drop_packet s = record s { dropped_packets = add64 s.dropped_packets 1 }

pub data Event : Type 0 where
  arrives : ℕ → ℕ → Event
  drops : Event

unfoldable pub step : Stats → Event → Stats
step s (arrives proto pkt_len) = update s proto pkt_len
step s drops = drop_packet s

unfoldable pub run : Stats → List Event → Stats
run s [] = s
run s (e ∷ es) = run (step s e) es

-- The counters by protocol add up to the number of packets, and all are words of 64 bits.
pub record IsBalanced (s : Stats) : Type 0 where
  pub balance :
      (s.tcp_packets + s.udp_packets + s.icmp_packets + s.arp_packets + s.other_packets) % 2 ^ 64
      ≡ s.total_packets

step-IsBalanced : (s : Stats) (e : Event) → IsBalanced s → IsBalanced (step s e)
unfolding step update count_proto drop_packet
step-IsBalanced s drops b = record { balance = b.balance }
step-IsBalanced s (arrives proto pkt_len) b = elim (Bool-cases (proto == 6)) [
  | inl e ↦ rw e (record { balance = omega (arith, b.balance) })
  | inr e ↦ elim (Bool-cases (proto == 17)) [
    | inl f ↦ rw (e, f) (record { balance = omega (arith, b.balance) })
    | inr f ↦ elim (Bool-cases (proto == 1)) [
      | inl g ↦ rw (e, f, g) (record { balance = omega (arith, b.balance) })
      | inr g ↦ elim (Bool-cases (proto == 0x0806)) [
        | inl h ↦ rw (e, f, g, h) (record { balance = omega (arith, b.balance) })
        | inr h ↦ rw (e, f, g, h) (record { balance = omega (arith, b.balance) })
      ]
    ]
  ]
]

-- After any sequence of updates and drops from balanced counters, the counters of the five
-- protocol classes add up to the number of packets, modulo 2^64.
pub run-IsBalanced : (s : Stats) (es : List Event) → IsBalanced s → IsBalanced (run s es)
unfolding run
run-IsBalanced s [] b = b
run-IsBalanced s (e ∷ es) b = run-IsBalanced (step s e) es (step-IsBalanced s e b)
