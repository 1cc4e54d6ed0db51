-- ===== src/Ethtype/Tests.antt =====
-- Runs of the model of src/ethtype.c.
use pktsnare.Common.{◌≡◌, refl, true, some}
use pktsnare.Common.Text.{codes}
use pktsnare.Ethtype.{table, unknown, name_in, name, same_case, lookup_in, lookup}

name_run : (name 0x86DD ≡ codes "IPv6") × (name 1 ≡ unknown) × (lookup (codes "QINQ") ≡ some 0x9100)
unfolding name name_in lookup_in
name_run = (refl, refl, refl)

ipv6_run : name_in 0x86DD table ≡ some (codes "IPv6")
unfolding name_in
ipv6_run = refl

folded_run : same_case (name 0x86DD) (codes "ipv6") ≡ true
unfolding name name_in
folded_run = refl
