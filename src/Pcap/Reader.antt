-- ===== src/Pcap/Reader.antt =====
-- What src/pcap.c writes, as a reader of the file finds it.
use pktsnare.Common.{
  ℕ, suc, ◌+◌, ◌/◌, ◌%◌, ◌^◌, ◌<◌, ◌≡◌, refl, sym, ap, subst, ◌∙◌, true, some, List, [], ◌∷◌, ◌++◌,
  map, arith, min, length, take, drop, All, length-take, add64,
}
use mathlib.Core.List.{append_assoc, append-nil}
use mathlib.Core.Option.{some-injective}
use pktsnare.Common.Int.{success}
use pktsnare.Pcap.{Writer, global_header, open_writer, header_bytes, record_header, write}
use pktsnare.Pcap.Format.{
  Packet, read_packet, read_packets, read_global, expected_global, read_global-global_header,
  IsSmall, read_packet-bytes,
}

-- A packet that arrives: its bytes and the clock.
pub record Arrival : Type 0 where
  pub packet : List ℕ
  pub sec : ℕ
  pub nsec : ℕ

-- The writes of packets, of which every `fwrite` succeeds.
pub write_all : Writer → List Arrival → Writer
write_all w [] = w
write_all w (a ∷ later) =
    write_all (write w a.packet (length a.packet) a.sec a.nsec 16 (length a.packet)).1 later

-- What a file should say of a packet: when it came, in seconds and microseconds, how many bytes
-- follow, how many there were, and those that follow.
abbrev pub expected : ℕ → Arrival → Packet
expected snaplen a = (
  record {
    ts_sec = a.sec % 2 ^ 32;
    ts_usec = a.nsec / 1000 % 2 ^ 32;
    incl_len = min (length a.packet) snaplen;
    orig_len = length a.packet;
  },
  take (min (length a.packet) snaplen) a.packet,
)

abbrev pub IsPacket : Arrival → Type 0
IsPacket a = (0 < length a.packet) × (length a.packet < 2 ^ 32)

-- The bytes of the packets of a sequence.
abbrev bytes_of : ℕ → Arrival → List ℕ
bytes_of snaplen a =
    header_bytes (record_header snaplen a.sec a.nsec (length a.packet))
    ++ take (min (length a.packet) snaplen) a.packet

abbrev bytes_all : ℕ → List Arrival → List ℕ
bytes_all snaplen [] = []
bytes_all snaplen (a ∷ later) = bytes_of snaplen a ++ bytes_all snaplen later

header-IsSmall :
    (snaplen : ℕ) (a : Arrival)
    → IsPacket a
    → IsSmall (record_header snaplen a.sec a.nsec (length a.packet))
unfolding record_header
header-IsSmall snaplen a h = (omega arith, omega arith, ground (arith, h.1), h.1)

length-payload :
    (snaplen : ℕ) (a : Arrival)
    → length (take (min (length a.packet) snaplen) a.packet)
      ≡ (record_header snaplen a.sec a.nsec (length a.packet)).incl_len
unfolding record_header
length-payload snaplen a = ground (arith, length-take (min (length a.packet) snaplen) a.packet)

-- The header is the one that the file should have.
record_header-expected :
    (snaplen : ℕ) (a : Arrival)
    → record_header snaplen a.sec a.nsec (length a.packet) ≡ (expected snaplen a).0
unfolding record_header
record_header-expected snaplen a = ground arith

read_packets-suc :
    (n : ℕ) (file rest rest' : List ℕ) (p : Packet) (ps : List Packet)
    → read_packet file ≡ some (p, rest)
    → read_packets n rest ≡ some (ps, rest')
    → read_packets (suc n) file ≡ some (p ∷ ps, rest')
unfolding read_packets
read_packets-suc n file rest rest' p ps e f = rw (e, read_packets) (rw (f, read_packets) refl)

read_packets-bytes :
    (snaplen : ℕ) (arrivals : List Arrival)
    → All IsPacket arrivals
    → read_packets (length arrivals) (bytes_all snaplen arrivals)
      ≡ some (map (expected snaplen) arrivals, [])
unfolding read_packets
read_packets-bytes snaplen [] h = refl
read_packets-bytes snaplen (a ∷ later) h =
    let here =
      read_packet-bytes (record_header snaplen a.sec a.nsec (length a.packet))
        (take (min (length a.packet) snaplen) a.packet) (bytes_all snaplen later)
        (header-IsSmall snaplen a h.0) (length-payload snaplen a) in
    let flat =
      append_assoc (header_bytes (record_header snaplen a.sec a.nsec (length a.packet)))
        (take (min (length a.packet) snaplen) a.packet) (bytes_all snaplen later) in
    read_packets-suc (length later) (bytes_all snaplen (a ∷ later)) (bytes_all snaplen later) []
      (expected snaplen a) (map (expected snaplen) later)
      (ap read_packet flat
        ∙ here
        ∙ ap
            (λ head.
              some ((head, take (min (length a.packet) snaplen) a.packet), bytes_all snaplen later))
            (record_header-expected snaplen a))
      (read_packets-bytes snaplen later h.1)

abbrev written : Writer → Arrival → Writer
written w a = record w { file = w.file ++ bytes_of w.snaplen a; pkt_count = add64 w.pkt_count 1 }

write-written :
    (w : Writer) (a : Arrival)
    → IsPacket a
    → write w a.packet (length a.packet) a.sec a.nsec 16 (length a.packet) ≡ (success, written w a)
unfolding write record_header
write-written w a h = ground (arith, h.0)

write_all-written :
    (w : Writer) (a : Arrival) (later : List Arrival)
    → IsPacket a
    → write_all w (a ∷ later) ≡ write_all (written w a) later
unfolding write_all
write_all-written w a later h = ap (λ r. write_all (r.1) later) (write-written w a h)

file-write_all :
    (w : Writer) (arrivals : List Arrival)
    → All IsPacket arrivals
    → w.pkt_count < 2 ^ 64
    → ((write_all w arrivals).file ≡ w.file ++ bytes_all w.snaplen arrivals)
      × ((write_all w arrivals).pkt_count ≡ (w.pkt_count + length arrivals) % 2 ^ 64)
unfolding write_all
file-write_all w [] h c = (sym (append-nil w.file), omega arith)
file-write_all w (a ∷ later) h c =
    let ih = file-write_all (written w a) later h.1 (omega arith) in
    rw (write_all-written w a later h.0) (
      ih.0 ∙ append_assoc w.file (bytes_of w.snaplen a) (bytes_all w.snaplen later),
      omega (arith, ih.1),
    )

-- A file that is opened and given packets of at least one byte and less than 2^32, of which every
-- write reaches the file, has the header of version 2.4 with the magic number of microseconds, the
-- snapshot length and the link type (modulo 2^32), and reads back behind it as those packets in
-- order: the
-- seconds modulo 2^32, the nanoseconds divided by 1000 and modulo 2^32, the smaller of the length and
-- the snapshot length, the length, and the bytes up to the snapshot length. The counter is their
-- number modulo 2^64.
pub read_packets-write_all :
    (snaplen linktype : ℕ) (arrivals : List Arrival) {w : Writer}
    → open_writer snaplen linktype true true 24 ≡ some w
    → All IsPacket arrivals
    → let last = write_all w arrivals in
      (read_packets (length arrivals) (drop 24 last.file)
        ≡ some (map (expected snaplen) arrivals, []))
      × (last.pkt_count ≡ length arrivals % 2 ^ 64)
      × (read_global last.file ≡ some (expected_global snaplen linktype, drop 24 last.file))
unfolding open_writer global_header
read_packets-write_all snaplen linktype arrivals {w} e h =
    subst
      (λ x.
        (read_packets (length arrivals) (drop 24 (write_all x arrivals).file)
          ≡ some (map (expected snaplen) arrivals, []))
        × ((write_all x arrivals).pkt_count ≡ length arrivals % 2 ^ 64)
        × (read_global (write_all x arrivals).file
            ≡ some (expected_global snaplen linktype, drop 24 (write_all x arrivals).file)))
      (some-injective _ _ e)
      (
        ap (λ f. read_packets (length arrivals) (drop 24 f)) (fw.0)
            ∙ read_packets-bytes snaplen arrivals h,
        omega (arith, fw.1),
        rw (fw.0) (read_global-global_header snaplen linktype (bytes_all snaplen arrivals)),
      )
  where
    fresh : Writer
    fresh = record {
      file = global_header snaplen linktype;
      snaplen = snaplen;
      linktype = linktype;
      pkt_count = 0;
    }

    fw :
        ((write_all fresh arrivals).file ≡ fresh.file ++ bytes_all snaplen arrivals)
        × ((write_all fresh arrivals).pkt_count ≡ (0 + length arrivals) % 2 ^ 64)
    fw = file-write_all fresh arrivals h (omega arith)
