-- ===== src/Pcap/Format.antt =====
-- A reader of capture files, which is not part of the program, as the specification of src/pcap.c.
use pktsnare.Common.{
  ℕ, zero, suc, ◌+◌, ◌*◌, ◌/◌, ◌%◌, ◌^◌, ◌<◌, ◌≡◌, refl, ap, false, Option, none, some, List, [],
  ◌∷◌, ◌++◌, arith, ltb, if◌then◌else◌, length, take, drop, length-append,
}
use pktsnare.Pcap.{Header, global_header, header_bytes}

abbrev pub Packet : Type 0
Packet = Header × List ℕ

abbrev word : ℕ → ℕ → ℕ → ℕ → ℕ
word a b c d = a + b * 256 + c * 65536 + d * 16777216

-- A header of 16 bytes, and as many bytes as it says.
unfoldable pub read_packet : List ℕ → Option (Packet × List ℕ)
read_packet (a0 ∷ a1 ∷ a2 ∷ a3 ∷ b0 ∷ b1 ∷ b2 ∷ b3 ∷ c0 ∷ c1 ∷ c2 ∷ c3 ∷ d0 ∷ d1 ∷ d2 ∷ d3 ∷ rest) =
    let n = word c0 c1 c2 c3 in
    let h : Header = record {
      ts_sec = word a0 a1 a2 a3;
      ts_usec = word b0 b1 b2 b3;
      incl_len = n;
      orig_len = word d0 d1 d2 d3;
    } in
    if ltb (length rest) n then none else some ((h, take n rest), drop n rest)
read_packet _ = none

unfoldable pub read_packets : ℕ → List ℕ → Option (List Packet × List ℕ)
read_packets zero file = some ([], file)
read_packets (suc n) file = elim (read_packet file) [
  | none ↦ none
  | some (p, rest) ↦ elim (read_packets n rest) [
    | none ↦ none
    | some (ps, rest') ↦ some (p ∷ ps, rest')
  ]
]

-- The header of a file
pub record Global : Type 0 where
  pub magic : ℕ
  pub version_major : ℕ
  pub version_minor : ℕ
  pub zone : ℕ
  pub sigfigs : ℕ
  pub snaplen : ℕ
  pub linktype : ℕ

pub read_global : List ℕ → Option (Global × List ℕ)
read_global
      (a0 ∷ a1 ∷ a2 ∷ a3 ∷ b0 ∷ b1 ∷ b2 ∷ b3 ∷ c0 ∷ c1 ∷ c2 ∷ c3 ∷ d0 ∷ d1 ∷ d2 ∷ d3 ∷ e0 ∷ e1 ∷ e2
        ∷ e3 ∷ f0 ∷ f1 ∷ f2 ∷ f3 ∷ rest) =
    some (
      record {
        magic = word a0 a1 a2 a3;
        version_major = word b0 b1 0 0;
        version_minor = word b2 b3 0 0;
        zone = word c0 c1 c2 c3;
        sigfigs = word d0 d1 d2 d3;
        snaplen = word e0 e1 e2 e3;
        linktype = word f0 f1 f2 f3;
      },
      rest,
    )
read_global _ = none

-- What a file should say of itself: version 2.4, in microseconds, with no time zone.
abbrev pub expected_global : ℕ → ℕ → Global
expected_global snaplen linktype = record {
  magic = 0xa1b2c3d4;
  version_major = 2;
  version_minor = 4;
  zone = 0;
  sigfigs = 0;
  snaplen = snaplen % 2 ^ 32;
  linktype = linktype % 2 ^ 32;
}

word_le32 :
    (n : ℕ) → n < 2 ^ 32 → word (n % 256) (n / 256 % 256) (n / 65536 % 256) (n / 16777216 % 256) ≡ n
word_le32 n h = omega arith

word_le32_mod :
    (n : ℕ) → word (n % 256) (n / 256 % 256) (n / 65536 % 256) (n / 16777216 % 256) ≡ n % 2 ^ 32
word_le32_mod n = omega arith

pub read_global-global_header :
    (snaplen linktype : ℕ) (rest : List ℕ)
    → read_global (global_header snaplen linktype ++ rest)
      ≡ some (expected_global snaplen linktype, rest)
unfolding read_global global_header
read_global-global_header snaplen linktype rest =
    rw (word_le32_mod snaplen, word_le32_mod linktype) refl

pub take_whole : (xs ys : List ℕ) → take (length xs) (xs ++ ys) ≡ xs
take_whole [] ys = refl
take_whole (x ∷ xs) ys = ap (◌∷◌ x) (take_whole xs ys)

pub drop_whole : (xs ys : List ℕ) → drop (length xs) (xs ++ ys) ≡ ys
drop_whole [] ys = refl
drop_whole (x ∷ xs) ys = drop_whole xs ys

abbrev pub IsSmall : Header → Type 0
IsSmall h =
    (h.ts_sec < 2 ^ 32) × (h.ts_usec < 2 ^ 32) × (h.incl_len < 2 ^ 32) × (h.orig_len < 2 ^ 32)

pub read_packet-bytes :
    (h : Header) (bytes rest : List ℕ)
    → IsSmall h
    → length bytes ≡ h.incl_len
    → read_packet (header_bytes h ++ (bytes ++ rest)) ≡ some ((h, bytes), rest)
unfolding read_packet header_bytes
read_packet-bytes h bytes rest b e =
    let fits : ltb (length (bytes ++ rest)) (length bytes) ≡ false =
      ground (arith, length-append bytes rest) in
    rw
      (
        word_le32 h.ts_sec b.0,
        word_le32 h.ts_usec b.1,
        word_le32 h.incl_len b.2,
        word_le32 h.orig_len b.3,
        ← e,
        fits,
        take_whole bytes rest,
        drop_whole bytes rest,
      )
      refl
