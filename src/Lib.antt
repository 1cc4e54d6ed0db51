-- ===== src/Lib.antt =====
-- A verification of pktsnare, a packet capture tool for small Linux machines.
--
-- The program. A capture loop (main.c, capture.c) takes frames from a raw socket on an interface
-- (iface.c, promisc.c, bpf_wrap.c, ifstats.c), takes each apart (dissect.c, decode.c, proto.c,
-- ethtype.c), lets filters and limits act on it (filter.c, snaplen.c, truncate.c, throttle.c,
-- ratelimit.c), keeps tables of what it saw (conntrack.c, dnstrack.c, flowtrack.c, fragtrack.c,
-- ipdefrag.c, mactrack.c, portmap.c, session.c, tcpreasm.c, ttltrack.c), counts and warns (stats.c,
-- alarm.c), buffers packets (ring.c), and prints or stores them (output.c, hexdump.c, pcap.c,
-- timestamp.c). All of these lie in src/. The parts do not share state: each has a context or a table
-- that its caller passes in, apart from session.c, ipdefrag.c and output.c, which have two globals
-- each.
--
-- The model. Each component is a module named for its file:
--   Ring        src/ring.c        the ring (Ring), and the queue that it implements (Ring/Queue)
--   Conntrack   src/conntrack.c   connections in a hash table with open addressing
--   Dnstrack    src/dnstrack.c    queries and answers in a packed array
--   Tcpreasm    src/tcpreasm.c    streams in slots, each with an ordered list of segments
--   Dissect     src/dissect.c     the headers of a packet
--   Decode      src/decode.c      the fields of a header
--   Portmap     src/portmap.c     the names of ports in a packed array
--   Mactrack    src/mactrack.c    hardware addresses in slots
--   Flowtrack   src/flowtrack.c   flows in slots
--   Fragtrack   src/fragtrack.c   fragments of datagrams in a packed array
--   Ttltrack    src/ttltrack.c    times to live in a packed array
--   Session     src/session.c     sessions, one slot for each hash
--   Proto       src/proto.c       protocols, by ports
--   Ethtype     src/ethtype.c     EtherTypes and their names
--   Alarm       src/alarm.c       rules on the packet rate
--   Throttle    src/throttle.c    the limits of a window
--   Limits      src/snaplen.c and src/truncate.c
--   Stats       src/stats.c       the counters of a capture
--   Pcap        src/pcap.c        the writer of capture files, and a reader of them (Pcap/Format)
--   Filter      src/filter.c      filters from a text of words
--   Ipdefrag    src/ipdefrag.c    datagrams put together from fragments, in order (Datagram) and in
--               any order (Cover, AnyOrder, Reassembly)
--   Promisc     src/promisc.c     promiscuous mode, with a step relation over the calls (Promisc/Steps)
--   Capture     src/capture.c, and src/main.c in Capture/Program
--   Hexdump     src/hexdump.c     bytes as text, in a buffer (Buf) and on a stream (Rows)
--   Ratelimit   src/ratelimit.c   a token bucket over an interface of floating-point numbers
--   Output      src/output.c      where and in which format packets are written
--   Bpf         src/bpf_wrap.c    filters that libpcap compiles and runs
--   Ifstats     src/ifstats.c     the counters of an interface
--   Timestamp   src/timestamp.c   microseconds and their texts
--   Iface       src/iface.c       questions about interfaces
-- Table has the loops that the tables share: the search (Scan, Find), the removal from a packed
-- array (Packed), and the pass that clears slots (Slots). Common has lists, words, signed integers
-- and reads from a buffer. In a component, the module of its name has the data and one function per
-- C function, called as there without the prefix (`ring_push` is `Ring.push`); the modules below it
-- have the invariants and the properties, and Tests runs the model and applies the theorems.
--
-- Conventions. A struct is a record, a fixed array a list of its length, a pointer into an array an
-- index. What a C function changes through a pointer is returned. A pointer that the C code compares
-- with NULL first is there, and that test left out. `malloc` and `calloc` are Boolean arguments that
-- say whether they succeed. The clock is an argument, of the second in which the call takes place.
-- A flag that is 0 or 1 is a Bool. Unsigned words wrap at their width; a difference of `time_t` is
-- signed and does not overflow; counts of type `int` are numbers, and stay below the size of their
-- table. A string is its characters, without the NUL. A read through a pointer outside the buffer is
-- `none`, so that a function that returns is one that stayed inside.
--
-- Fuel. `Conntrack.probe` has as fuel the number of slots: the index goes round the table once, and
-- the loop ends where it is back, after at most that many rounds. `Table.Packed.sweep` runs for `n
-- - i` rounds, which is what the loop does, since each round lowers that by one.
-- `Filter.parse_words` has the number of words, and each round takes a word at least;
-- `Hexdump.rows` has the number of bytes, and each round takes a byte at least. The loops of
-- `Capture` run on a list of rounds, and give none where the list ends before they do. All other
-- loops are structural.
--
-- The system. What a call of the system gives is an argument of the function that makes it: a
-- descriptor or none, a Boolean for success, the bytes of a frame. The descriptors that are open
-- are a list, which `socket`, `fopen` and `close` change, and the flags of an interface are part of
-- the state. libpcap, `inet_addr`, `gmtime_r`, `isprint` and the arithmetic of `double` are
-- parameters; the laws of the last, those of IEEE 754, are hypotheses (Ratelimit/Tokens,
-- Ratelimit/Burst).
--
-- Left out: what is only printed, the text of the lines of output.c, the names of interfaces in
-- promisc.c and capture.c, the rates in floating point of stats.c, and the log and settings files.
-- Functions that only free memory or print have no definition. Where a header does not agree with
-- its .c file, the .c file is modelled.
pub mod Common
pub mod Table
pub mod Ring
pub mod Conntrack
pub mod Dnstrack
pub mod Tcpreasm
pub mod Dissect
pub mod Decode
pub mod Portmap
pub mod Mactrack
pub mod Flowtrack
pub mod Fragtrack
pub mod Ttltrack
pub mod Session
pub mod Proto
pub mod Alarm
pub mod Throttle
pub mod Limits
pub mod Stats
pub mod Pcap
pub mod Filter
pub mod Ipdefrag
pub mod Promisc
pub mod Capture
pub mod Hexdump
pub mod Ratelimit
pub mod Output
pub mod Ethtype
pub mod Bpf
pub mod Ifstats
pub mod Timestamp
pub mod Iface
