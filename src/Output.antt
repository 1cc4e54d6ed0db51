-- ===== src/Output.antt =====
-- src/output.c and the enumeration of src/output.h: where packets are printed, and in which format.
-- The two globals, the files that are open and what has been written are one state. Whether `fopen`
-- succeeds is an argument, with the file that it gives; the two lines that a packet becomes are
-- arguments, since they are put together by the C library.
pub mod Session
mod Tests
use pktsnare.Common.{
  ℕ, zero, suc, ◌+◌, ◌-◌, ◌*◌, ◌/◌, ◌%◌, ◌^◌, ◌≤◌, ◌<◌, ◌≡◌, refl, sym, ap, ap₂, subst, ◌∙◌, ◌≢◌,
  ◌↔◌, ◌⊎◌, inl, inr, Bool, true, false, not, ◌&&◌, ◌||◌, Option, none, some, List, [], ◌∷◌, ◌++◌,
  map, Perm, arith, min, ℕ_discrete, ltb, leb, ◌==◌, if◌then◌else◌, ==_iff, ==_refl, Bool-cases,
  Option-cases, length, get_elem?, get_or, set, modify, take, drop, replicate, All, length-append,
  length-set, length-modify, length-replicate, length-take, get_elem?-eq-get_or, get_elem?-none,
  get_elem?-some, get_elem?-set_self, get_elem?-set_ne, modify-set, modify-eq-set, take-set,
  take-set_end, take-suc, take_all, take-take_append, All-get_elem?, All-set, All-of_get_elem?,
  All-replicate, add8, add16, add32, add64, sub32, sub64, bit_and, bit_or, bit_xor,
}
use pktsnare.Promisc.{close}

-- `OutputFormat`
pub data Format : Type 0 where
  text json : Format

pub data Sink : Type 0 where
  stdout : Sink
  file : ℕ → Sink

-- `current_format` and `out_fp`, `none` for NULL, with the open files and what has been written, in
-- order
pub record State : Type 0 where
  pub format : Format
  pub out : Option Sink
  pub opened : List ℕ
  pub written : List (Sink × List ℕ)

-- `path` says whether there is one, and `got` is the file that `fopen` gives for it.
unfoldable pub init : Format → Bool → Option ℕ → State → State
init f path got s = if not path then record s { format = f; out = some stdout } else elim got [
  | none ↦ record s { format = f; out = some stdout }
  | some fd ↦ record s { format = f; out = some (file fd); opened = fd ∷ s.opened }
]

unfoldable pub end_ : State → State
end_ s = elim s.out [
  | none ↦ s
  | some stdout ↦ s
  | some (file fd) ↦ record s { out = none; opened = close fd s.opened }
]

abbrev pub set_format : Format → State → State
set_format f s = record s { format = f }

module _ {P : Type 0} (print_text print_json : P → List ℕ) where
  abbrev pub line : Format → P → List ℕ
  line json p = print_json p
  line text p = print_text p

  unfoldable pub write : Option P → State → State
  write none s = s
  write (some p) s = elim s.out [
    | none ↦ s
    | some to ↦ record s { written = s.written ++ ((to, line s.format p) ∷ []) }
  ]
