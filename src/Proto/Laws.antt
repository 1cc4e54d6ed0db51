-- ===== src/Proto/Laws.antt =====
-- How the two directions of a conversation are identified by src/proto.c, and how its table agrees
-- with it.
use pktsnare.Common.{ℕ, ◌≡◌, ◌≢◌, some, refl, inl, inr, true, ◌||◌, arith, Bool-cases}
use pktsnare.Proto.{
  ProtoId, unknown, is_unknown, port_lookup, by_ports, identify, match_fill, proto_table, info,
}

unknown_of : (p : ProtoId) → is_unknown p ≡ true → p ≡ unknown
unknown_of ProtoId.unknown e = refl
unknown_of ProtoId.arp e = absurd (cc e)
unknown_of ProtoId.icmp e = absurd (cc e)
unknown_of ProtoId.tcp e = absurd (cc e)
unknown_of ProtoId.udp e = absurd (cc e)
unknown_of ProtoId.dns e = absurd (cc e)
unknown_of ProtoId.http e = absurd (cc e)
unknown_of ProtoId.tls e = absurd (cc e)
unknown_of ProtoId.dhcp e = absurd (cc e)
unknown_of ProtoId.ntp e = absurd (cc e)

by_ports_swap :
    (transport : ProtoId) (a b : ℕ)
    → (is_unknown (port_lookup a) || is_unknown (port_lookup b)) ≡ true
    → by_ports transport a b ≡ by_ports transport b a
unfolding by_ports
by_ports_swap transport a b h = elim (Bool-cases (is_unknown (port_lookup a))) [
  | inl ua ↦ elim (Bool-cases (is_unknown (port_lookup b))) [
    | inl ub ↦ rw (unknown_of (port_lookup a) ua, unknown_of (port_lookup b) ub) refl
    | inr kb ↦ rw (unknown_of (port_lookup a) ua, kb) (rw kb refl)
  ]
  | inr ka ↦
      let ub : is_unknown (port_lookup b) ≡ true = ground (arith, ka, h) in
      rw (unknown_of (port_lookup b) ub, ka) (rw ka refl)
]

-- Where at most one of the two ports is well known, the two directions of a conversation have the
-- same protocol.
pub identify_swap :
    (ip_proto a b : ℕ)
    → (is_unknown (port_lookup a) || is_unknown (port_lookup b)) ≡ true
    → (match_fill ip_proto a b).proto ≡ (match_fill ip_proto b a).proto
unfolding match_fill identify
identify_swap ip_proto a b h =
    ground (arith, by_ports_swap ProtoId.tcp a b h, by_ports_swap ProtoId.udp a b h)

-- The table of src/proto.c has each protocol under its own number, and a port that it gives for a
-- protocol is one by which the protocol is found.
pub port_lookup-default_port :
    (p : ProtoId)
    → (info (some p)).default_port ≢ 0
    → ((info (some p)).id ≡ p) × (port_lookup ((info (some p)).default_port) ≡ p)
unfolding port_lookup proto_table info
port_lookup-default_port ProtoId.unknown h = absurd (h refl)
port_lookup-default_port ProtoId.arp h = absurd (h refl)
port_lookup-default_port ProtoId.icmp h = absurd (h refl)
port_lookup-default_port ProtoId.tcp h = absurd (h refl)
port_lookup-default_port ProtoId.udp h = absurd (h refl)
port_lookup-default_port ProtoId.dns h = (refl, refl)
port_lookup-default_port ProtoId.http h = (refl, refl)
port_lookup-default_port ProtoId.tls h = (refl, refl)
port_lookup-default_port ProtoId.dhcp h = (refl, refl)
port_lookup-default_port ProtoId.ntp h = (refl, refl)
