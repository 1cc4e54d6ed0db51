-- ===== src/Dissect/Tests.antt =====
-- A run of the model of src/dissect.c, and its theorem at a concrete packet.
use pktsnare.Common.{ℕ, ◌≡◌, refl, Option, some, List, [], ◌∷◌, ◌++◌, arith, replicate}
use mathlib.Core.Option
use pktsnare.Common.Reads.{◌>>=◌, byte, span, be16, Returns}
use pktsnare.Dissect.{
  blank, parse_ethernet, parse_ipv4, parse_udp, parse_transport, dissect_ipv4, dissect_payload,
  dissect_packet,
}
use pktsnare.Dissect.Safety.{PayloadFits, dissect_packet-Returns}

abbrev ethernet_part : List ℕ
ethernet_part = replicate 12 1 ++ 8 ∷ 0 ∷ []

abbrev ip_part : List ℕ
ip_part = 69 ∷ 0 ∷ 0 ∷ 30 ∷ replicate 4 0 ++ 64 ∷ 17 ∷ 0 ∷ 0 ∷ replicate 8 9

-- A UDP packet of two bytes from port 258 to port 53.
abbrev packet : List ℕ
packet = ethernet_part ++ ip_part ++ 1 ∷ 2 ∷ 0 ∷ 53 ∷ 0 ∷ 10 ∷ 0 ∷ 0 ∷ 7 ∷ 8 ∷ []

dissect_packet_run :
    Option.map {B = Option ℕ × ℕ × ℕ}
      (λ r. (r.1.payload, r.1.payload_len, r.1.transport.dst_port))
      (dissect_packet packet 44 blank)
    ≡ some (some 42, 2, 53)
unfolding dissect_packet dissect_payload dissect_ipv4 parse_ethernet parse_ipv4 parse_transport
    parse_udp byte span be16 ◌>>=◌
dissect_packet_run = refl

dissect_packet-Returns_example : Returns (dissect_packet packet 44 blank) (λ x. PayloadFits 44 x.1)
dissect_packet-Returns_example = dissect_packet-Returns packet 44 blank (omega arith) refl
