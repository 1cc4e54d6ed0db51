-- ===== src/Pcap/Tests.antt =====
-- The theorem on src/pcap.c at a concrete input.
use pktsnare.Common.{◌≡◌, refl, some, List, [], ◌∷◌, map, arith, drop}
use pktsnare.Pcap.{Writer, global_header, open_writer}
use pktsnare.Pcap.Format.{read_packets}
use pktsnare.Pcap.Reader.{Arrival, write_all, expected, read_packets-write_all}

abbrev arrivals : List Arrival
arrivals =
    record { packet = 1 ∷ 2 ∷ 3 ∷ []; sec = 7; nsec = 5000 }
    ∷ record { packet = 9 ∷ []; sec = 8; nsec = 0 }
    ∷ []

abbrev opened : Writer
opened = record { file = global_header 2 1; snaplen = 2; linktype = 1; pkt_count = 0 }

read_packets-write_all_example :
    read_packets 2 (drop 24 (write_all opened arrivals).file) ≡ some (map (expected 2) arrivals, [])
unfolding open_writer
read_packets-write_all_example =
    (read_packets-write_all 2 1 arrivals refl
      ((omega arith, omega arith), ((omega arith, omega arith), tt))).0
