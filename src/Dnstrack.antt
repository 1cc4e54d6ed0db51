-- ===== src/Dnstrack.antt =====
-- src/dnstrack.c and src/dnstrack.h: the queries in flight and their answers, in a packed array.
-- `time(NULL)` is the argument `now`. A flag is a Bool, and a name is its characters, without the
-- NUL that ends it. The context and the names are there (no NULL).
pub mod Invariant
pub mod Laws
mod Tests
use pktsnare.Common.{
  ℕ, ◌+◌, ◌-◌, ◌%◌, ◌^◌, Bool, true, false, not, ◌&&◌, List, Option, none, some, set, get_elem?,
  modify, take, replicate, add64, ltb, leb, ◌==◌, if◌then◌else◌,
}
use pktsnare.Common.Int.{ℤ, pos, ltb_ℤ, pos_part, success, failure}
use pktsnare.Table.Scan.{scan}
use pktsnare.Table.Packed.{sweep}

abbrev pub max_entries : ℕ
max_entries = 256

abbrev pub max_name_len : ℕ
max_name_len = 128

abbrev pub ttl_default : ℕ
ttl_default = 60

-- `dns_entry_t`
pub record Entry : Type 0 where
  pub txid : ℕ
  pub qname : List ℕ
  pub qtype : ℕ
  pub src_ip : ℕ
  pub timestamp : ℕ
  pub answered : Bool
  pub resolved_ip : ℕ

-- `dnstrack_ctx_t`
pub record Ctx : Type 0 where
  pub entries : List Entry
  pub count : ℕ
  pub ttl_seconds : ℕ
  pub total_queries : ℕ
  pub total_responses : ℕ
  pub expired : ℕ

-- What `memset` leaves in a slot.
abbrev pub zeroed : Entry
zeroed = record {
  txid = 0;
  qname = List.[];
  qtype = 0;
  src_ip = 0;
  timestamp = 0;
  answered = false;
  resolved_ip = 0;
}

unfoldable pub init : ℤ → Ctx
init ttl = record {
  entries = replicate max_entries zeroed;
  count = 0;
  ttl_seconds = if ltb_ℤ (pos 0) ttl then pos_part ttl else ttl_default;
  total_queries = 0;
  total_responses = 0;
  expired = 0;
}

unfoldable pub reset : Ctx → Ctx
reset c = record c {
  count = 0;
  total_queries = 0;
  total_responses = 0;
  expired = 0;
  entries = replicate max_entries zeroed;
}

abbrev pub query : ℕ → ℕ → List ℕ → ℕ → ℕ → Entry
query now txid qname qtype src_ip = record {
  txid = txid;
  qtype = qtype;
  src_ip = src_ip;
  timestamp = now;
  answered = false;
  resolved_ip = 0;
  qname = take (max_name_len - 1) qname;
}

unfoldable pub add_query : Ctx → ℕ → ℕ → List ℕ → ℕ → ℕ → ℤ × Ctx
add_query c now txid qname qtype src_ip = if leb max_entries c.count then (failure, c) else (
  success,
  record c {
    entries = set c.entries c.count (query now txid qname qtype src_ip);
    count = c.count + 1;
    total_queries = add64 c.total_queries 1;
  },
)

-- `e->txid == txid && !e->answered`
abbrev pub waits : ℕ → Entry → Bool
waits txid e = e.txid == txid && not e.answered

abbrev pub answer : ℕ → Entry → Entry
answer ip e = record e { answered = true; resolved_ip = ip }

unfoldable pub match_response : Ctx → ℕ → ℕ → ℤ × Ctx
match_response c txid ip = elim (scan (waits txid) c.count c.entries) [
  | none ↦ (failure, c)
  | some i ↦ (
    success,
    record c {
      entries = modify c.entries i (answer ip);
      total_responses = add64 c.total_responses 1;
    },
  )
]

-- `(now - e->timestamp) > ctx->ttl_seconds`, in signed arithmetic
abbrev pub stale : ℕ → ℕ → Entry → Bool
stale now ttl e = ltb (e.timestamp + ttl) now

unfoldable pub expire : Ctx → ℕ → Ctx
expire c now =
    let (entries, count, expired) =
      sweep (stale now c.ttl_seconds) (λ e. true) c.count 0 c.entries c.expired in
    record c { entries = entries; count = count; expired = expired }

-- `none` is the return value -1, which leaves `*out` alone.
unfoldable pub lookup : Ctx → ℕ → Option Entry
lookup c txid = elim (scan (λ e. e.txid == txid) c.count c.entries) [
  | none ↦ none
  | some i ↦ get_elem? c.entries i
]
