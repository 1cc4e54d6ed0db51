-- ===== src/Table.antt =====
-- The loops that the tracking tables share. A table is a C array with a counter. It is packed (the
-- entries before the counter are the ones in use) or a set of slots, each with a flag.
-- Packed: dnstrack.c, fragtrack.c, portmap.c, ttltrack.c. Slots: flowtrack.c, mactrack.c.
pub mod Scan
pub mod Packed
pub mod Slots
pub mod Find
