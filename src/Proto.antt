-- ===== src/Proto.antt =====
-- src/proto.c and src/proto.h: which protocol a packet belongs to, and what is known of a protocol. A
-- text is its characters, and the match is there (no NULL).
pub mod Laws
mod Tests
use pktsnare.Common.{ℕ, List, Option, none, some, Bool, true, false, ◌||◌, ◌==◌, if◌then◌else◌}
use pktsnare.Common.Text.{codes}

-- `proto_id_t`
pub data ProtoId : Type 0 where
  unknown arp icmp tcp udp dns http tls dhcp ntp : ProtoId

abbrev pub is_unknown : ProtoId → Bool
is_unknown unknown = true
is_unknown _ = false

-- `proto_match_t`
pub record Match : Type 0 where
  pub proto : ProtoId
  pub src_port : ℕ
  pub dst_port : ℕ
  pub ip_proto : ℕ
  pub hint : List ℕ

-- `proto_info_t`
pub record Info : Type 0 where
  pub id : ProtoId
  pub name : List ℕ
  pub description : List ℕ
  pub default_port : ℕ

abbrev pub entry : ProtoId → List ℕ → List ℕ → ℕ → Info
entry id name description port = record {
  id = id;
  name = name;
  description = description;
  default_port = port;
}

unfoldable pub proto_table : ProtoId → Info
proto_table unknown = entry unknown (codes "unknown") (codes "Unidentified protocol") 0
proto_table arp = entry arp (codes "arp") (codes "Address Resolution") 0
proto_table icmp = entry icmp (codes "icmp") (codes "Internet Control Msg") 0
proto_table tcp = entry tcp (codes "tcp") (codes "Transmission Control") 0
proto_table udp = entry udp (codes "udp") (codes "User Datagram") 0
proto_table dns = entry dns (codes "dns") (codes "Domain Name System") 53
proto_table http = entry http (codes "http") (codes "Hypertext Transfer") 80
proto_table tls = entry tls (codes "tls") (codes "Transport Layer Sec") 443
proto_table dhcp = entry dhcp (codes "dhcp") (codes "Dynamic Host Config") 67
proto_table ntp = entry ntp (codes "ntp") (codes "Network Time Protocol") 123

-- `none` is a number from `PROTO_COUNT` on.
unfoldable pub info : Option ProtoId → Info
info none = proto_table unknown
info (some id) = proto_table id

abbrev pub name : Option ProtoId → List ℕ
name id = (info id).name

unfoldable pub port_lookup : ℕ → ProtoId
port_lookup port =
    if port == 53
    then dns
    else if port == 80
    then http
    else if port == 443
    then tls
    else if port == 67 || port == 68
    then dhcp
    else if port == 123
    then ntp
    else unknown

-- The body of the cases for TCP and UDP, with the protocol that is returned where no port is known
unfoldable pub by_ports : ProtoId → ℕ → ℕ → ProtoId
by_ports transport src_port dst_port =
    let p =
      if is_unknown (port_lookup dst_port) then port_lookup src_port else port_lookup dst_port in
    if is_unknown p then transport else p

unfoldable pub identify : ℕ → ℕ → ℕ → ProtoId
identify ip_proto src_port dst_port =
    if ip_proto == 1
    then icmp
    else if ip_proto == 6
    then by_ports tcp src_port dst_port
    else if ip_proto == 17
    then by_ports udp src_port dst_port
    else unknown

unfoldable pub match_fill : ℕ → ℕ → ℕ → Match
match_fill ip_proto src_port dst_port = record {
  proto = identify ip_proto src_port dst_port;
  src_port = src_port;
  dst_port = dst_port;
  ip_proto = ip_proto;
  hint = (proto_table (identify ip_proto src_port dst_port)).description;
}
