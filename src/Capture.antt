-- ===== src/Capture.antt =====
-- src/capture.c and src/capture.h: a raw socket and the loop that reads from it; Capture.Program is
-- src/main.c. What the system answers is an argument: the descriptor of `socket`, whether `ioctl`,
-- `bind` and `setsockopt` succeed, and for each round of the loop the flag as it is read, what `recv`
-- gives and the time. The name of the interface, the address and the messages on stderr are left out.
pub mod Loop
pub mod Socket
pub mod Program
mod Tests
use pktsnare.Common.{
  ℕ, zero, suc, ◌+◌, ◌-◌, ◌*◌, ◌/◌, ◌%◌, ◌^◌, ◌≤◌, ◌<◌, ◌≡◌, refl, sym, ap, ap₂, subst, ◌∙◌, ◌≢◌,
  ◌↔◌, ◌⊎◌, inl, inr, Bool, true, false, not, ◌&&◌, ◌||◌, Option, none, some, List, [], ◌∷◌, ◌++◌,
  map, Perm, arith, min, ℕ_discrete, ltb, leb, ◌==◌, if◌then◌else◌, ==_iff, ==_refl, Bool-cases,
  Option-cases, length, get_elem?, get_or, set, modify, take, drop, replicate, All, length-append,
  length-set, length-modify, length-replicate, length-take, get_elem?-eq-get_or, get_elem?-none,
  get_elem?-some, get_elem?-set_self, get_elem?-set_ne, modify-set, modify-eq-set, take-set,
  take-set_end, take-suc, take_all, take-take_append, All-get_elem?, All-set, All-of_get_elem?,
  All-replicate, add8, add16, add32, add64, sub32, sub64, bit_and, bit_or, bit_xor,
}
use pktsnare.Common.Int.{ℤ, pos, success, failure}
use pktsnare.Promisc.{close}

abbrev pub capture_snaplen : ℕ
capture_snaplen = 65535

-- `capture_ctx_t`; `sockfd` is `none` for -1.
pub record Ctx : Type 0 where
  pub sockfd : Option ℕ
  pub promiscuous : Bool
  pub snaplen : ℕ
  pub pkt_count : ℕ
  pub byte_count : ℕ

-- `raw_packet_t`, with the `len` bytes that are in the buffer
pub record Packet : Type 0 where
  pub bytes : List ℕ
  pub len : ℕ
  pub caplen : ℕ
  pub ts : ℕ

-- `recv` gives bytes, at the time of `gettimeofday`, or fails, with `EINTR` or another error.
pub data Recv : Type 0 where
  bytes : List ℕ → ℕ → Recv
  interrupted failed : Recv

-- A round of the loop: whether the flag is set, and what `recv` gives if it is not
abbrev pub Round : Type 0
Round = Bool × Recv

-- The context that `capture_open` fills in, once there is a socket
abbrev pub fresh : ℕ → Bool → Ctx
fresh fd promiscuous = record {
  sockfd = some fd;
  promiscuous = promiscuous;
  snaplen = capture_snaplen;
  pkt_count = 0;
  byte_count = 0;
}

-- The result, the context, the open descriptors and whether the interface is in promiscuous mode for
-- the socket
unfoldable pub open_ : List ℕ → Option ℕ → Bool → Bool → Bool → Bool → ℤ × Ctx × List ℕ × Bool
open_ opened none promiscuous found bound joined =
    (failure, record (fresh 0 promiscuous) { sockfd = none }, opened, false)
open_ opened (some fd) promiscuous found bound joined =
    let during = fd ∷ opened in
    if not found
    then (failure, fresh fd promiscuous, close fd during, false)
    else if not bound
    then (failure, fresh fd promiscuous, close fd during, false)
    else (success, fresh fd promiscuous, during, promiscuous && joined)

unfoldable pub close_ : Ctx → List ℕ → Ctx × List ℕ
close_ c opened = elim c.sockfd [
  | none ↦ (c, opened)
  | some fd ↦ (record c { sockfd = none }, close fd opened)
]

abbrev pub packet : Ctx → List ℕ → ℕ → Packet
packet c bs now = record {
  bytes = bs;
  len = length bs % 2 ^ 32;
  caplen = (if ltb (length bs) c.snaplen then length bs else c.snaplen) % 2 ^ 32;
  ts = now;
}

abbrev pub counted : Ctx → Packet → Ctx
counted c p = record c { pkt_count = add64 c.pkt_count 1; byte_count = add64 c.byte_count p.len }

-- `capture_loop` on the rounds that there are, with the handler and its state; `none` is a loop that
-- still runs.
module _ {S : Type 0} (handler : Packet → S → S) where
  unfoldable pub loop : Ctx → S → List Round → Option (ℤ × Ctx × S)
  loop c s [] = none
  loop c s ((stop, recv) ∷ rs) = elim stop [
    | true ↦ some (success, c, s)
    | false ↦ elim recv [
      | interrupted ↦ loop c s rs
      | failed ↦ some (failure, c, s)
      | bytes bs now ↦ loop (counted c (packet c bs now)) (handler (packet c bs now) s) rs
    ]
  ]
