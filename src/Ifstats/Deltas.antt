-- ===== src/Ifstats/Deltas.antt =====
-- What src/ifstats.c reads, and the difference of two readings.
use pktsnare.Common.{
  ℕ, ◌^◌, ◌≤◌, ◌<◌, ◌≡◌, ap, Bool, true, false, ◌&&◌, some, List, [], ◌∷◌, ◌++◌, arith, ◌==◌,
  length, All, take_all, add64, sub64,
}
use pktsnare.Common.Text.{same}
use pktsnare.Ifstats.{Stats, Line, read_lines, read, delta, total_errors, name_size}

-- The eight counters have 64 bits.
pub record IsCounted (s : Stats) : Type 0 where
  pub rx_bytes : s.rx_bytes < 2 ^ 64
  pub rx_packets : s.rx_packets < 2 ^ 64
  pub rx_errors : s.rx_errors < 2 ^ 64
  pub rx_dropped : s.rx_dropped < 2 ^ 64
  pub tx_bytes : s.tx_bytes < 2 ^ 64
  pub tx_packets : s.tx_packets < 2 ^ 64
  pub tx_errors : s.tx_errors < 2 ^ 64
  pub tx_dropped : s.tx_dropped < 2 ^ 64

-- Each counter grows by that of a difference, and wraps around.
abbrev pub grown : Stats → Stats → Stats
grown s d = record {
  iface = d.iface;
  rx_bytes = add64 s.rx_bytes d.rx_bytes;
  rx_packets = add64 s.rx_packets d.rx_packets;
  rx_errors = add64 s.rx_errors d.rx_errors;
  rx_dropped = add64 s.rx_dropped d.rx_dropped;
  tx_bytes = add64 s.tx_bytes d.tx_bytes;
  tx_packets = add64 s.tx_packets d.tx_packets;
  tx_errors = add64 s.tx_errors d.tx_errors;
  tx_dropped = add64 s.tx_dropped d.tx_dropped;
}

add-sub64 : (a b : ℕ) → a < 2 ^ 64 → b < 2 ^ 64 → add64 a (sub64 b a) ≡ b
add-sub64 a b h k = omega arith

errors_lem :
    (a b c e a' b' c' e' : ℕ)
    → add64
        (add64 (add64 (add64 a b) c) e)
        (add64 (add64 (add64 (sub64 a' a) (sub64 b' b)) (sub64 c' c)) (sub64 e' e))
      ≡ add64 (add64 (add64 a' b') c') e'
errors_lem a b c e a' b' c' e' = omega arith

-- `ifstats_delta` of src/ifstats.c on two readings of 64-bit counters, the second with a name of at
-- most 16 characters: the first reading grown by the difference is the second one, also where a
-- counter has wrapped around in between, and the errors and drops of the difference are those of the
-- second reading less those of the first, modulo 2^64.
pub delta_lem :
    (before after : Stats)
    → IsCounted before
    → IsCounted after
    → length after.iface ≤ name_size
    → (grown before (delta before after) ≡ after)
      × (add64 (total_errors before) (total_errors (delta before after)) ≡ total_errors after)
unfolding delta total_errors
delta_lem before after b a h =
    let rx_bytes = add-sub64 before.rx_bytes after.rx_bytes b.rx_bytes a.rx_bytes in
    let rx_packets = add-sub64 before.rx_packets after.rx_packets b.rx_packets a.rx_packets in
    let rx_errors = add-sub64 before.rx_errors after.rx_errors b.rx_errors a.rx_errors in
    let rx_dropped = add-sub64 before.rx_dropped after.rx_dropped b.rx_dropped a.rx_dropped in
    let tx_bytes = add-sub64 before.tx_bytes after.tx_bytes b.tx_bytes a.tx_bytes in
    let tx_packets = add-sub64 before.tx_packets after.tx_packets b.tx_packets a.tx_packets in
    let tx_errors = add-sub64 before.tx_errors after.tx_errors b.tx_errors a.tx_errors in
    let tx_dropped = add-sub64 before.tx_dropped after.tx_dropped b.tx_dropped a.tx_dropped in
    let name = take_all after.iface name_size h in
    (
      ground (
        arith, name, rx_bytes, rx_packets, rx_errors, rx_dropped, tx_bytes, tx_packets, tx_errors,
        tx_dropped,
      ),
      errors_lem before.rx_errors before.rx_dropped before.tx_errors before.tx_dropped
          after.rx_errors after.rx_dropped after.tx_errors after.tx_dropped,
    )

-- A line is one of the interface, with all its values.
abbrev pub is_line : List ℕ → Line → Bool
is_line iface l = l.n == 9 && same l.name iface

-- `ifstats_read` for a name of at most 15 characters: the counters of the first line of the interface
-- that has all its values, under the interface's name.
pub read_lem :
    (iface : List ℕ) (before after : List Line) (l : Line)
    → length iface < name_size
    → All (λ x. is_line iface x ≡ false) before
    → is_line iface l ≡ true
    → read iface (some (before ++ (l ∷ after))) ≡ some (record l.s { iface = iface })
unfolding read read_lines
read_lem iface [] after l h f e =
    rw e (ap (λ (s : List ℕ). some record l.s { iface = s }) (take_all iface 15 (omega arith)))
read_lem iface (b ∷ before) after l h f e = rw (f.0) (read_lem iface before after l h f.1 e)
