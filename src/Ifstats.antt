-- ===== src/Ifstats.antt =====
-- src/ifstats.c and src/ifstats.h: the counters of an interface. The lines of /proc/net/dev behind the
-- two headings are an argument, each as `sscanf` reads it. A name is its characters, and the pointers
-- are there (no NULL). What is printed is left out.
pub mod Deltas
mod Tests
use pktsnare.Common.{
  ℕ, zero, suc, ◌+◌, ◌-◌, ◌*◌, ◌/◌, ◌%◌, ◌^◌, ◌≤◌, ◌<◌, ◌≡◌, refl, sym, ap, ap₂, subst, ◌∙◌, ◌≢◌,
  ◌↔◌, ◌⊎◌, inl, inr, Bool, true, false, not, ◌&&◌, ◌||◌, Option, none, some, List, [], ◌∷◌, ◌++◌,
  map, Perm, arith, min, ℕ_discrete, ltb, leb, ◌==◌, if◌then◌else◌, ==_iff, ==_refl, Bool-cases,
  Option-cases, length, get_elem?, get_or, set, modify, take, drop, replicate, All, length-append,
  length-set, length-modify, length-replicate, length-take, get_elem?-eq-get_or, get_elem?-none,
  get_elem?-some, get_elem?-set_self, get_elem?-set_ne, modify-set, modify-eq-set, take-set,
  take-set_end, take-suc, take_all, take-take_append, All-get_elem?, All-set, All-of_get_elem?,
  All-replicate, add8, add16, add32, add64, sub32, sub64, bit_and, bit_or, bit_xor,
}
use pktsnare.Common.Text.{same}

abbrev pub name_size : ℕ
name_size = 16

-- `ifstats_t`
pub record Stats : Type 0 where
  pub iface : List ℕ
  pub rx_bytes : ℕ
  pub rx_packets : ℕ
  pub rx_errors : ℕ
  pub rx_dropped : ℕ
  pub tx_bytes : ℕ
  pub tx_packets : ℕ
  pub tx_errors : ℕ
  pub tx_dropped : ℕ

-- A line: how many values `sscanf` has read, the name and the counters
pub record Line : Type 0 where
  pub n : ℕ
  pub name : List ℕ
  pub s : Stats

-- The loop over the lines, for the first one of the interface; `none` is -1, and `*out` left as it
-- was.
unfoldable pub read_lines : List ℕ → List Line → Option Stats
read_lines iface [] = none
read_lines iface (l ∷ ls) =
    if l.n == 9 && same l.name iface
    then some (record l.s { iface = take (name_size - 1) iface })
    else read_lines iface ls

-- `lines` is `none` where the file or its headings cannot be read.
unfoldable pub read : List ℕ → Option (List Line) → Option Stats
read iface none = none
read iface (some lines) = read_lines iface lines

unfoldable pub delta : Stats → Stats → Stats
delta before after = record {
  iface = take name_size after.iface;
  rx_bytes = sub64 after.rx_bytes before.rx_bytes;
  rx_packets = sub64 after.rx_packets before.rx_packets;
  rx_errors = sub64 after.rx_errors before.rx_errors;
  rx_dropped = sub64 after.rx_dropped before.rx_dropped;
  tx_bytes = sub64 after.tx_bytes before.tx_bytes;
  tx_packets = sub64 after.tx_packets before.tx_packets;
  tx_errors = sub64 after.tx_errors before.tx_errors;
  tx_dropped = sub64 after.tx_dropped before.tx_dropped;
}

unfoldable pub total_errors : Stats → ℕ
total_errors s = add64 (add64 (add64 s.rx_errors s.rx_dropped) s.tx_errors) s.tx_dropped
