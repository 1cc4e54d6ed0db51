-- ===== src/Decode/Tests.antt =====
-- The theorem on src/decode.c at a concrete input.
use pktsnare.Common.{ℕ, List, [], ◌∷◌, arith}
use pktsnare.Common.Reads.{Returns}
use pktsnare.Decode.{started, unnamed, decode_udp}
use pktsnare.Decode.Values.{AreBytes}
use pktsnare.Decode.Safety.{Decodes, udp_of, decoders-Decodes}

abbrev header : List ℕ
header = 1 ∷ 2 ∷ 0 ∷ 53 ∷ 0 ∷ 8 ∷ 0 ∷ 0 ∷ []

header-AreBytes : AreBytes header
header-AreBytes = ground arith

decoders-Decodes_example :
    Returns (decode_udp header 8 (started unnamed)) (Decodes 8 (udp_of header) 8 (started unnamed))
decoders-Decodes_example =
    (decoders-Decodes header 8 (started unnamed) header-AreBytes (omega arith)).3
