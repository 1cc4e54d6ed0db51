-- ===== src/Ifstats/Tests.antt =====
-- Runs of the model of src/ifstats.c.
use pktsnare.Common.{ℕ, ◌-◌, ◌^◌, ◌≡◌, refl, some, List, [], ◌∷◌}
use pktsnare.Common.Text.{codes}
use pktsnare.Ifstats.{Stats, Line, read_lines, read, delta, total_errors}

-- The same value for the packets and bytes, and the same for what went wrong
abbrev reading : ℕ → ℕ → Stats
reading good bad = record {
  iface = codes "eth0";
  rx_bytes = good;
  rx_packets = good;
  rx_errors = bad;
  rx_dropped = bad;
  tx_bytes = good;
  tx_packets = good;
  tx_errors = bad;
  tx_dropped = bad;
}

-- The bytes have wrapped around.
delta_run :
    (delta (reading (2 ^ 64 - 1) 1) (reading 9 3) ≡ reading 10 2)
    × (total_errors (reading 9 3) ≡ 12)
unfolding delta total_errors
delta_run = (refl, refl)

abbrev line : List ℕ → Line
line name = record { n = 9; name = name; s = record (reading 5 0) { iface = [] } }

read_run :
    read (codes "eth0") (some (line (codes "lo") ∷ line (codes "eth0") ∷ [])) ≡ some (reading 5 0)
unfolding read read_lines
read_run = refl
