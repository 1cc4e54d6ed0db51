-- ===== src/Decode/Safety.antt =====
-- What the decoders of src/decode.c read, and the fields that they return.
use pktsnare.Common.{
  ℕ, ◌+◌, ◌/◌, ◌%◌, ◌≤◌, ◌<◌, ◌≡◌, refl, ap, ◌⊎◌, inl, inr, some, List, [], ◌∷◌, arith, ltb,
  if◌then◌else◌, Bool-cases, length,
}
use pktsnare.Common.Int.{ℤ, success, failure}
use pktsnare.Common.Reads.{◌>>=◌, span, Returns, Returns-bind}
use pktsnare.Decode.{
  Name, Value, Field, Result, add_field, decode_ethernet, decode_ipv4, decode_tcp, decode_udp,
}
use pktsnare.Decode.Values.{
  AreBytes, IsSpan, uint8_at, uint16_at, uint32_at, span-IsSpan, read4, read8, read16, read32,
}

abbrev field : Name → Value → Field
field name value = record { name = name; value = value }

-- The headers as their standards lay them out. An address of Ethernet is its offset and its length.
abbrev pub ethernet_of : List ℕ → Result
ethernet_of buf = record {
  proto_name = Name.ethernet;
  fields =
      field Name.dst_mac (Value.bytes 0 6)
      ∷ field Name.src_mac (Value.bytes 6 6)
      ∷ field Name.ethertype (Value.uint16 (uint16_at buf 12))
      ∷ [];
}

abbrev pub ipv4_of : List ℕ → Result
ipv4_of buf = record {
  proto_name = Name.ipv4;
  fields =
      field Name.version (Value.uint8 (uint8_at buf 0 / 16))
      ∷ field Name.ihl (Value.uint8 (uint8_at buf 0 % 16))
      ∷ field Name.tos (Value.uint8 (uint8_at buf 1))
      ∷ field Name.tot_len (Value.uint16 (uint16_at buf 2))
      ∷ field Name.ttl (Value.uint8 (uint8_at buf 8))
      ∷ field Name.protocol (Value.uint8 (uint8_at buf 9))
      ∷ field Name.src_ip (Value.uint32 (uint32_at buf 12))
      ∷ field Name.dst_ip (Value.uint32 (uint32_at buf 16))
      ∷ [];
}

abbrev pub tcp_of : List ℕ → Result
tcp_of buf = record {
  proto_name = Name.tcp;
  fields =
      field Name.src_port (Value.uint16 (uint16_at buf 0))
      ∷ field Name.dst_port (Value.uint16 (uint16_at buf 2))
      ∷ field Name.seq (Value.uint32 (uint32_at buf 4))
      ∷ field Name.ack (Value.uint32 (uint32_at buf 8))
      ∷ field Name.flags (Value.uint8 (uint8_at buf 13))
      ∷ field Name.window (Value.uint16 (uint16_at buf 14))
      ∷ [];
}

abbrev pub udp_of : List ℕ → Result
udp_of buf = record {
  proto_name = Name.udp;
  fields =
      field Name.src_port (Value.uint16 (uint16_at buf 0))
      ∷ field Name.dst_port (Value.uint16 (uint16_at buf 2))
      ∷ field Name.length_field (Value.uint16 (uint16_at buf 4))
      ∷ field Name.checksum (Value.uint16 (uint16_at buf 6))
      ∷ [];
}

-- Success with a result on a packet of at least `least` bytes, failure and no change below it.
abbrev pub Decodes : ℕ → Result → ℕ → Result → ℤ × Result → Type 0
Decodes least expected len out r =
    ((len < least) × (r ≡ (failure, out))) ⊎ ((least ≤ len) × (r ≡ (success, expected)))

-- A decoder that checks the length, reads some bytes below it, and builds its result from them.
decoder-Decodes :
    (buf : List ℕ) (len least off count : ℕ) (expected out : Result) (build : List ℕ → Result)
    → len ≤ length buf
    → off + count ≤ least
    → ((h : List ℕ) → IsSpan buf off count h → build h ≡ expected)
    → Returns
        (if ltb len least
          then some (failure, out)
          else (span buf off count >>= λ h. some (success, build h)))
        (Decodes least expected len out)
decoder-Decodes buf len least off count expected out build fits inside built =
    elim (Bool-cases (ltb len least)) [
      | inl short ↦ rw short ((failure, out), refl, inl (ground arith, refl))
      | inr long ↦ rw long (
          Returns-bind (span buf off count) _ (span-IsSpan buf off count (ground arith)) λ h s.
            ((success, build h), refl, inr (ground arith, ap (λ r. (success, r)) (built h s))))
    ]

-- On a buffer of bytes that holds `len` of them, each of the four decoders returns without a read
-- past the end: -1 and the result as it was if the header does not fit (14, 20, 20 and 8 bytes), and
-- else 0, the name of the protocol, and exactly the fields of that header in order, each with its
-- name, its type and the number that its bytes stand for, most significant first; of an Ethernet
-- address, the offset and the length.
pub decoders-Decodes :
    (buf : List ℕ) (len : ℕ) (out : Result)
    → AreBytes buf
    → len ≤ length buf
    → Returns (decode_ethernet buf len out) (Decodes 14 (ethernet_of buf) len out)
      × Returns (decode_ipv4 buf len out) (Decodes 20 (ipv4_of buf) len out)
      × Returns (decode_tcp buf len out) (Decodes 20 (tcp_of buf) len out)
      × Returns (decode_udp buf len out) (Decodes 8 (udp_of buf) len out)
unfolding decode_ethernet decode_ipv4 decode_tcp decode_udp add_field
decoders-Decodes buf len out bytes h = (
  decoder-Decodes buf len 14 12 2 (ethernet_of buf) out _ h (omega arith)
      λ b s. rw (read16 buf 12 2 b s bytes 0 1 (omega arith) (omega arith)) refl,
  decoder-Decodes buf len 20 0 20 (ipv4_of buf) out _ h (omega arith) λ b s.
      let one = read8 buf 0 20 b s bytes in
      let halves = read4 buf 0 20 b s bytes 0 (omega arith) in
      rw
        (
          halves.0,
          halves.1,
          one 1 (omega arith),
          read16 buf 0 20 b s bytes 2 3 (omega arith) (omega arith),
          one 8 (omega arith),
          one 9 (omega arith),
          read32 buf 0 20 b s bytes 12 13 14 15 (omega arith) (omega arith) (omega arith)
              (omega arith),
          read32 buf 0 20 b s bytes 16 17 18 19 (omega arith) (omega arith) (omega arith)
              (omega arith),
        )
        refl,
  decoder-Decodes buf len 20 0 16 (tcp_of buf) out _ h (omega arith) λ b s.
      let two = read16 buf 0 16 b s bytes in
      rw
        (
          two 0 1 (omega arith) (omega arith),
          two 2 3 (omega arith) (omega arith),
          read32 buf 0 16 b s bytes 4 5 6 7 (omega arith) (omega arith) (omega arith) (omega arith),
          read32 buf 0 16 b s bytes 8 9 10 11 (omega arith) (omega arith) (omega arith)
              (omega arith),
          read8 buf 0 16 b s bytes 13 (omega arith),
          two 14 15 (omega arith) (omega arith),
        )
        refl,
  decoder-Decodes buf len 8 0 8 (udp_of buf) out _ h (omega arith) λ b s.
      let two = read16 buf 0 8 b s bytes in
      rw
        (
          two 0 1 (omega arith) (omega arith),
          two 2 3 (omega arith) (omega arith),
          two 4 5 (omega arith) (omega arith),
          two 6 7 (omega arith) (omega arith),
        )
        refl,
)
