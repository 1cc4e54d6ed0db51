-- ===== src/Promisc.antt =====
-- src/promisc.c and the record of src/promisc.h: promiscuous mode of one interface. The world is the
-- interface's flag word in the kernel, its bit `IFF_PROMISC` and its other bits, and the descriptors
-- that the program holds open. What the kernel answers is an argument: the descriptor that `socket`
-- gives, if any, and whether an `ioctl` succeeds. An `ioctl` without a descriptor fails. The name of
-- the interface is left out: each call gives the kernel the same first 15 characters of it.
pub mod Steps
pub mod Sockets
mod Tests
use pktsnare.Common.{
  ℕ, zero, suc, ◌+◌, ◌-◌, ◌*◌, ◌/◌, ◌%◌, ◌^◌, ◌≤◌, ◌<◌, ◌≡◌, refl, sym, ap, ap₂, subst, ◌∙◌, ◌≢◌,
  ◌↔◌, ◌⊎◌, inl, inr, Bool, true, false, not, ◌&&◌, ◌||◌, Option, none, some, List, [], ◌∷◌, ◌++◌,
  map, Perm, arith, min, ℕ_discrete, ltb, leb, ◌==◌, if◌then◌else◌, ==_iff, ==_refl, Bool-cases,
  Option-cases, length, get_elem?, get_or, set, modify, take, drop, replicate, All, length-append,
  length-set, length-modify, length-replicate, length-take, get_elem?-eq-get_or, get_elem?-none,
  get_elem?-some, get_elem?-set_self, get_elem?-set_ne, modify-set, modify-eq-set, take-set,
  take-set_end, take-suc, take_all, take-take_append, All-get_elem?, All-set, All-of_get_elem?,
  All-replicate, add8, add16, add32, add64, sub32, sub64, bit_and, bit_or, bit_xor,
}
use pktsnare.Common.Int.{ℤ, pos, success, failure}

pub record Flags : Type 0 where
  pub promisc : Bool
  pub rest : ℕ

pub record World : Type 0 where
  pub flags : Flags
  pub opened : List ℕ

-- `promisc_ctx_t`; `sockfd` is `none` for -1.
pub record Ctx : Type 0 where
  pub was_promisc : Bool
  pub enabled : Bool
  pub sockfd : Option ℕ

-- `close`, which ends the first use of a descriptor
unfoldable pub close : ℕ → List ℕ → List ℕ
close fd [] = []
close fd (x ∷ xs) = if fd == x then xs else x ∷ close fd xs

pub close-cons : (fd : ℕ) (xs : List ℕ) → close fd (fd ∷ xs) ≡ xs
unfolding close
close-cons fd xs = rw (==_refl fd) refl

unfoldable pub get_flags : Option ℕ → World → Bool → Option Flags
get_flags none w ok = none
get_flags (some fd) w ok = if ok then some w.flags else none

unfoldable pub set_flags : Option ℕ → World → Flags → Bool → Option World
set_flags none w f ok = none
set_flags (some fd) w f ok = if ok then some (record w { flags = f }) else none

-- The result 1, 0 or -1, here also as `some` of a Bool, of `promisc_query`
unfoldable pub query : World → Option ℕ → Bool → Option Bool × World
query w none ok = (none, w)
query w (some fd) ok =
    let during = record w { opened = fd ∷ w.opened } in
    (
      if ok then some during.flags.promisc else none,
      record during { opened = close fd during.opened },
    )

-- `sock` and `sock'` are what the two calls of `socket` give, the second one in `promisc_query`.
unfoldable pub init : World → Option ℕ → Option ℕ → Bool → ℤ × Ctx × World
init w none sock' ok = (failure, record { was_promisc = false; enabled = false; sockfd = none }, w)
init w (some fd) sock' ok =
    let (r, w') = query (record w { opened = fd ∷ w.opened }) sock' ok in
    elim r [
      | none ↦ (
        failure,
        record { was_promisc = false; enabled = false; sockfd = none },
        record w' { opened = close fd w'.opened },
      )
      | some p ↦ (success, record { was_promisc = p; enabled = p; sockfd = some fd }, w')
    ]

-- The part that `promisc_enable` and `promisc_disable` share: the bit is read, changed and written.
unfoldable pub turn : Bool → Ctx → World → Bool → Bool → ℤ × Ctx × World
turn on c w got ok = elim (get_flags c.sockfd w got) [
  | none ↦ (failure, c, w)
  | some flags ↦ elim (set_flags c.sockfd w (record flags { promisc = on }) ok) [
    | none ↦ (failure, c, w)
    | some w' ↦ (success, record c { enabled = on }, w')
  ]
]

unfoldable pub enable : Ctx → World → Bool → Bool → ℤ × Ctx × World
enable c w got ok = if c.enabled then (success, c, w) else turn true c w got ok

unfoldable pub disable : Ctx → World → Bool → Bool → ℤ × Ctx × World
disable c w got ok =
    if not c.enabled
    then (success, c, w)
    else if c.was_promisc
    then (success, c, w)
    else turn false c w got ok

unfoldable pub free : Ctx → World → Ctx × World
free c w = elim c.sockfd [
  | none ↦ (c, w)
  | some fd ↦ (record c { sockfd = none }, record w { opened = close fd w.opened })
]
