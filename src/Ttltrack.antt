-- ===== src/Ttltrack.antt =====
-- src/ttltrack.c and src/ttltrack.h: the time to live of each host's packets, in a packed array. The
-- table is there (no NULL), `time(NULL)` is the argument `now`, and a flag is a Bool. A pointer to an
-- entry is its index.
pub mod Laws
mod Tests
use pktsnare.Common.{
  ℕ, ◌+◌, Bool, true, false, Option, none, some, List, leb, ◌==◌, if◌then◌else◌, get_or, set,
  replicate, add32,
}
use pktsnare.Common.Int.{ℤ, pos, failure, sub_ℕ, ltb_ℤ}
use pktsnare.Table.Scan.{scan}

abbrev pub max_entries : ℕ
max_entries = 256

abbrev pub anomaly_threshold : ℕ
anomaly_threshold = 10

-- `ttltrack_entry_t`
pub record Entry : Type 0 where
  pub src_ip : ℕ
  pub observed_ttl : ℕ
  pub baseline_ttl : ℕ
  pub pkt_count : ℕ
  pub first_seen : ℕ
  pub last_seen : ℕ
  pub anomaly_flagged : Bool

-- `ttltrack_table_t`
pub record Table : Type 0 where
  pub entries : List Entry
  pub count : ℕ
  pub anomalies_detected : ℕ

abbrev pub zeroed : Entry
zeroed = record {
  src_ip = 0;
  observed_ttl = 0;
  baseline_ttl = 0;
  pkt_count = 0;
  first_seen = 0;
  last_seen = 0;
  anomaly_flagged = false;
}

-- `ttltrack_init`, and `ttltrack_reset`
unfoldable pub init : Table
init = record { entries = replicate max_entries zeroed; count = 0; anomalies_detected = 0 }

unfoldable pub guess_baseline : ℕ → ℕ
guess_baseline ttl = if leb ttl 64 then 64 else if leb ttl 128 then 128 else 255

unfoldable pub lookup : Table → ℕ → Option ℕ
lookup t src_ip = scan (λ e. e.src_ip == src_ip) t.count t.entries

unfoldable pub is_anomaly : Entry → ℕ → Bool
is_anomaly e ttl = ltb_ℤ (pos anomaly_threshold) (sub_ℕ e.baseline_ttl ttl)

abbrev pub observe : ℕ → ℕ → Entry → Entry
observe now ttl e = record e {
  observed_ttl = ttl;
  pkt_count = add32 e.pkt_count 1;
  last_seen = now;
}

abbrev pub first_sight : ℕ → ℕ → ℕ → Entry
first_sight now src_ip ttl = record zeroed {
  src_ip = src_ip;
  baseline_ttl = guess_baseline ttl;
  first_seen = now;
}

-- The rest of `ttltrack_update`, once `e` is the entry of slot `i`
unfoldable pub judge : ℕ → Table → ℕ → ℕ → Entry → ℤ × Table
judge now t i ttl e =
    let e' = observe now ttl e in
    if is_anomaly e' ttl
    then (
      pos 1,
      record t {
        entries = set t.entries i (record e' { anomaly_flagged = true });
        anomalies_detected =
            if e.anomaly_flagged then t.anomalies_detected else add32 t.anomalies_detected 1;
      },
    )
    else (pos 0, record t { entries = set t.entries i (record e' { anomaly_flagged = false }) })

unfoldable pub update : ℕ → Table → ℕ → ℕ → ℤ × Table
update now t src_ip ttl = elim (lookup t src_ip) [
  | some i ↦ judge now t i ttl (get_or t.entries i zeroed)
  | none ↦
      if leb max_entries t.count
      then (failure, t)
      else judge now (record t { count = t.count + 1 }) t.count ttl (first_sight now src_ip ttl)
]
