-- ===== src/Decode.antt =====
-- src/decode.c and src/decode.h: the fields of a header. The buffer is a list of bytes, and `none` a
-- read past its end. The buffers are there (no NULL). The pointer of a field of bytes is its offset,
-- and a name is a constructor. The printing is left out.
pub mod Values
pub mod Safety
mod Tests
use pktsnare.Common.{
  ℕ, ◌/◌, ◌%◌, ◌^◌, Option, some, List, [], ◌∷◌, ◌++◌, ltb, leb, if◌then◌else◌, length, get_or,
}
use pktsnare.Common.Int.{ℤ, success, failure}
use pktsnare.Common.Reads.{◌>>=◌, byte, span, be16, be32}

abbrev pub max_fields : ℕ
max_fields = 32

-- The names of protocols and fields
pub data Name : Type 0 where
  unnamed ethernet ipv4 tcp udp : Name
  dst_mac src_mac ethertype : Name
  version ihl tos tot_len ttl protocol src_ip dst_ip : Name
  src_port dst_port seq ack flags window length_field checksum : Name

-- The type of a field with its value; `bytes` has an offset and a length.
pub data Value : Type 0 where
  uint8 uint16 uint32 : ℕ → Value
  bytes : ℕ → ℕ → Value

-- `decode_field_t`
pub record Field : Type 0 where
  pub name : Name
  pub value : Value

-- `decode_result_t`; the fields up to the count are the list.
pub record Result : Type 0 where
  pub proto_name : Name
  pub fields : List Field

abbrev pub started : Name → Result
started name = record { proto_name = name; fields = [] }

-- What the casts in `add_field` keep of a value
abbrev pub narrowed : Value → Value
narrowed (uint8 n) = uint8 (n % 2 ^ 8)
narrowed (uint16 n) = uint16 (n % 2 ^ 16)
narrowed (uint32 n) = uint32 n
narrowed (bytes off len) = bytes off len

unfoldable pub add_field : Name → Value → Result → Result
add_field name value r =
    if leb max_fields (length r.fields)
    then r
    else record r { fields = r.fields ++ record { name = name; value = narrowed value } ∷ [] }

unfoldable pub decode_ethernet : List ℕ → ℕ → Result → Option (ℤ × Result)
decode_ethernet buf len out = if ltb len 14 then some (failure, out) else do
  h ← span buf 12 2
  let at = λ (i : ℕ). get_or h i 0
  let r1 = add_field dst_mac (bytes 0 6) (started ethernet)
  let r2 = add_field src_mac (bytes 6 6) r1
  some (success, add_field ethertype (uint16 (be16 (at 0) (at 1))) r2)

unfoldable pub decode_ipv4 : List ℕ → ℕ → Result → Option (ℤ × Result)
decode_ipv4 buf len out = if ltb len 20 then some (failure, out) else do
  h ← span buf 0 20
  let at = λ (i : ℕ). get_or h i 0
  let r1 = add_field version (uint8 (at 0 / 16 % 16)) (started ipv4)
  let r2 = add_field ihl (uint8 (at 0 % 16)) r1
  let r3 = add_field tos (uint8 (at 1)) r2
  let r4 = add_field tot_len (uint16 (be16 (at 2) (at 3))) r3
  let r5 = add_field ttl (uint8 (at 8)) r4
  let r6 = add_field protocol (uint8 (at 9)) r5
  let r7 = add_field src_ip (uint32 (be32 (at 12) (at 13) (at 14) (at 15))) r6
  some (success, add_field dst_ip (uint32 (be32 (at 16) (at 17) (at 18) (at 19))) r7)

unfoldable pub decode_tcp : List ℕ → ℕ → Result → Option (ℤ × Result)
decode_tcp buf len out = if ltb len 20 then some (failure, out) else do
  h ← span buf 0 16
  let at = λ (i : ℕ). get_or h i 0
  let r1 = add_field src_port (uint16 (be16 (at 0) (at 1))) (started tcp)
  let r2 = add_field dst_port (uint16 (be16 (at 2) (at 3))) r1
  let r3 = add_field seq (uint32 (be32 (at 4) (at 5) (at 6) (at 7))) r2
  let r4 = add_field ack (uint32 (be32 (at 8) (at 9) (at 10) (at 11))) r3
  let r5 = add_field flags (uint8 (at 13)) r4
  some (success, add_field window (uint16 (be16 (at 14) (at 15))) r5)

unfoldable pub decode_udp : List ℕ → ℕ → Result → Option (ℤ × Result)
decode_udp buf len out = if ltb len 8 then some (failure, out) else do
  h ← span buf 0 8
  let at = λ (i : ℕ). get_or h i 0
  let r1 = add_field src_port (uint16 (be16 (at 0) (at 1))) (started udp)
  let r2 = add_field dst_port (uint16 (be16 (at 2) (at 3))) r1
  let r3 = add_field length_field (uint16 (be16 (at 4) (at 5))) r2
  some (success, add_field checksum (uint16 (be16 (at 6) (at 7))) r3)
