-- ===== src/Proto/Tests.antt =====
-- The two directions of a conversation between two well-known ports, which src/proto.c tells apart.
use pktsnare.Common.{◌≡◌, refl}
use pktsnare.Proto.{dns, ntp, port_lookup, by_ports, identify}

identify_run : (identify 17 53 123 ≡ ntp) × (identify 17 123 53 ≡ dns)
unfolding identify by_ports port_lookup
identify_run = (refl, refl)
