-- ===== src/Dissect.antt =====
-- src/dissect.c and src/dissect.h: a packet taken apart. The packet is a list of bytes, a pointer into
-- it an offset, and `none` a read past its end. An address stays the four bytes that `memcpy` moves.
pub mod Safety
mod Tests
use pktsnare.Common.{
  ℕ, ◌+◌, ◌-◌, ◌*◌, ◌/◌, ◌%◌, ◌^◌, ◌&&◌, Option, none, some, List, ltb, leb, ◌==◌, if◌then◌else◌,
  length, get_or, replicate,
}
use pktsnare.Common.Int.{ℤ, pos, ltb_ℤ, success, failure}
use pktsnare.Common.Reads.{◌>>=◌, byte, span, be16, be32}

abbrev pub eth_hdr_len : ℕ
eth_hdr_len = 14

abbrev pub ipv4_hdr_min : ℕ
ipv4_hdr_min = 20

abbrev pub tcp_hdr_min : ℕ
tcp_hdr_min = 20

abbrev pub udp_hdr_len : ℕ
udp_hdr_len = 8

pub data Proto : Type 0 where
  unknown ethernet arp ipv4 ipv6 tcp udp icmp : Proto

pub record EthInfo : Type 0 where
  pub proto : Proto
  pub src_mac : List ℕ
  pub dst_mac : List ℕ
  pub ethertype : ℕ

pub record Ipv4Info : Type 0 where
  pub src_ip : List ℕ
  pub dst_ip : List ℕ
  pub ttl : ℕ
  pub proto : ℕ
  pub total_len : ℕ

pub record TransportInfo : Type 0 where
  pub src_port : ℕ
  pub dst_port : ℕ
  pub seq : ℕ
  pub ack : ℕ
  pub flags : ℕ
  pub length : ℕ

-- `payload` is the offset of the payload in the packet, `none` for NULL.
pub record PacketInfo : Type 0 where
  pub eth : EthInfo
  pub ip : Ipv4Info
  pub transport : TransportInfo
  pub top_proto : Proto
  pub payload : Option ℕ
  pub payload_len : ℕ

-- What `memset` leaves.
abbrev pub blank : PacketInfo
blank = record {
  eth = record { proto = unknown; src_mac = replicate 6 0; dst_mac = replicate 6 0; ethertype = 0 };
  ip = record { src_ip = replicate 4 0; dst_ip = replicate 4 0; ttl = 0; proto = 0; total_len = 0 };
  transport = record { src_port = 0; dst_port = 0; seq = 0; ack = 0; flags = 0; length = 0 };
  top_proto = unknown;
  payload = none;
  payload_len = 0;
}

-- `parse_ethernet`, past its check of the length, which the caller has made before.
unfoldable pub parse_ethernet : List ℕ → ℕ → PacketInfo → Option (ℤ × PacketInfo)
parse_ethernet packet len out = if ltb len eth_hdr_len then some (failure, out) else do
  dst ← span packet 0 6
  src ← span packet 6 6
  hi ← byte packet 12
  lo ← byte packet 13
  some (
    success,
    record out {
      eth = record { proto = ethernet; src_mac = src; dst_mac = dst; ethertype = be16 hi lo };
    },
  )

-- The length of the header in bytes, `none` for the return value -1
unfoldable pub parse_ipv4 : List ℕ → ℕ → ℕ → PacketInfo → Option (Option ℕ × PacketInfo)
parse_ipv4 packet off len out = if ltb len ipv4_hdr_min then some (none, out) else do
  first ← byte packet off
  let ihl = first % 16 * 4
  let rest = do
    ttl ← byte packet (off + 8)
    proto ← byte packet (off + 9)
    hi ← byte packet (off + 2)
    lo ← byte packet (off + 3)
    src ← span packet (off + 12) 4
    dst ← span packet (off + 16) 4
    some (
      some ihl,
      record out {
        ip = record {
          src_ip = src;
          dst_ip = dst;
          ttl = ttl;
          proto = proto;
          total_len = be16 hi lo;
        };
      },
    )
  if ltb len ihl then some (none, out) else rest

unfoldable pub parse_tcp : List ℕ → ℕ → ℕ → PacketInfo → Option PacketInfo
parse_tcp packet off len out = do
  h ← span packet off 14
  let at = λ (i : ℕ). get_or h i 0
  let doff = at 12 / 16 * 4 % 2 ^ 8
  some (record out {
    transport = record {
      src_port = be16 (at 0) (at 1);
      dst_port = be16 (at 2) (at 3);
      seq = be32 (at 4) (at 5) (at 6) (at 7);
      ack = be32 (at 8) (at 9) (at 10) (at 11);
      flags = at 13;
      length = out.transport.length;
    };
    payload = some (off + doff);
    payload_len = if ltb doff len then len - doff else 0;
    top_proto = tcp;
  })

unfoldable pub parse_udp : List ℕ → ℕ → ℕ → PacketInfo → Option PacketInfo
parse_udp packet off len out = do
  h ← span packet off 6
  let at = λ (i : ℕ). get_or h i 0
  some (record out {
    transport = record (out.transport) {
      src_port = be16 (at 0) (at 1);
      dst_port = be16 (at 2) (at 3);
      length = be16 (at 4) (at 5);
    };
    payload = some (off + udp_hdr_len);
    payload_len = if ltb udp_hdr_len len then len - udp_hdr_len else 0;
    top_proto = udp;
  })

unfoldable pub parse_transport : List ℕ → ℕ → ℕ → ℕ → PacketInfo → Option PacketInfo
parse_transport packet off len ip_proto out =
    if ip_proto == 6 && leb tcp_hdr_min len
    then parse_tcp packet off len out
    else if ip_proto == 17 && leb udp_hdr_len len
    then parse_udp packet off len out
    else if ip_proto == 1
    then some (record out { top_proto = icmp })
    else some (record out { top_proto = unknown })

-- The branch of `dissect_packet` for IPv4
unfoldable pub dissect_ipv4 : List ℕ → ℕ → PacketInfo → Option (ℤ × PacketInfo)
dissect_ipv4 packet len out = do
  (ihl, out') ← parse_ipv4 packet eth_hdr_len (len - eth_hdr_len) out
  elim ihl [
    | none ↦ some (failure, out')
    | some n ↦ do
      info ← parse_transport packet (eth_hdr_len + n) (len - eth_hdr_len - n) out'.ip.proto out'
      some (success, info)
  ]

-- The branches of `dissect_packet` on the ethertype
unfoldable pub dissect_payload : List ℕ → ℕ → PacketInfo → Option (ℤ × PacketInfo)
dissect_payload packet len info =
    if info.eth.ethertype == 0x0800
    then dissect_ipv4 packet len info
    else if info.eth.ethertype == 0x0806
    then some (success, record info { top_proto = arp })
    else if info.eth.ethertype == 0x86DD
    then some (success, record info { top_proto = ipv6 })
    else some (success, record info { top_proto = unknown })

unfoldable pub dissect_packet : List ℕ → ℕ → PacketInfo → Option (ℤ × PacketInfo)
dissect_packet packet len out = if ltb len eth_hdr_len then some (failure, out) else do
  (status, info) ← parse_ethernet packet len blank
  if ltb_ℤ status (pos 0) then some (failure, info) else dissect_payload packet len info
