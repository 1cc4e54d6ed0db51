-- ===== src/Pcap.antt =====
-- src/pcap.c and src/pcap.h: the writer of capture files. A file is the list of its bytes. The host is
-- one of low byte first. The path, the data and the writer are there (no NULL); `fopen` and `calloc`
-- are Boolean arguments that say whether they succeed. Of each `fwrite` an argument says how many of
-- its bytes reached the file, which is all of them where it succeeds. The clock is two arguments.
pub mod Format
pub mod Reader
mod Tests
use pktsnare.Common.{
  ℕ, ◌/◌, ◌%◌, ◌^◌, Bool, ◌&&◌, Option, none, some, List, [], ◌∷◌, ◌++◌, ltb, leb, ◌==◌,
  if◌then◌else◌, take, add64,
}
use pktsnare.Common.Int.{ℤ, success, failure}

-- The values of `pcap_rec_header_t`
pub record Header : Type 0 where
  pub ts_sec : ℕ
  pub ts_usec : ℕ
  pub incl_len : ℕ
  pub orig_len : ℕ

-- `pcap_writer_t`, with the bytes of the file in the place of the handle
pub record Writer : Type 0 where
  pub file : List ℕ
  pub snaplen : ℕ
  pub linktype : ℕ
  pub pkt_count : ℕ

-- The bytes of a `uint16_t` and of a `uint32_t`
abbrev pub le16 : ℕ → List ℕ
le16 n = n % 256 ∷ n / 256 % 256 ∷ []

abbrev pub le32 : ℕ → List ℕ
le32 n = n % 256 ∷ n / 256 % 256 ∷ n / 65536 % 256 ∷ n / 16777216 % 256 ∷ []

-- The 24 bytes of `pcap_file_header_t`
unfoldable pub global_header : ℕ → ℕ → List ℕ
global_header snaplen linktype =
    le32 0xa1b2c3d4 ++ le16 2 ++ le16 4 ++ le32 0 ++ le32 0 ++ le32 snaplen ++ le32 linktype

-- `pcap_writer_open`, where `put` bytes of the header reach the file
unfoldable pub open_writer : ℕ → ℕ → Bool → Bool → ℕ → Option Writer
open_writer snaplen linktype opened allocated put =
    if opened && (allocated && leb 24 put)
    then some (record {
      file = global_header snaplen linktype;
      snaplen = snaplen;
      linktype = linktype;
      pkt_count = 0;
    })
    else none

-- The 16 bytes of `pcap_rec_header_t`
unfoldable pub header_bytes : Header → List ℕ
header_bytes h = le32 h.ts_sec ++ le32 h.ts_usec ++ le32 h.incl_len ++ le32 h.orig_len

unfoldable pub record_header : ℕ → ℕ → ℕ → ℕ → Header
record_header snaplen sec nsec len = record {
  ts_sec = sec % 2 ^ 32;
  ts_usec = nsec / 1000 % 2 ^ 32;
  incl_len = if ltb snaplen len then snaplen else len;
  orig_len = len;
}

-- `put` and `data_put` are the bytes that the two calls of `fwrite` put into the file.
unfoldable pub write : Writer → List ℕ → ℕ → ℕ → ℕ → ℕ → ℕ → ℤ × Writer
write w packet len sec nsec put data_put =
    let h = record_header w.snaplen sec nsec len in
    if len == 0
    then (failure, w)
    else if ltb put 16
    then (failure, record w { file = w.file ++ take put (header_bytes h) })
    else if ltb data_put h.incl_len
    then (failure, record w { file = w.file ++ (header_bytes h ++ take data_put packet) })
    else (
      success,
      record w {
        file = w.file ++ (header_bytes h ++ take h.incl_len packet);
        pkt_count = add64 w.pkt_count 1;
      },
    )
