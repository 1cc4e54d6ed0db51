-- ===== src/Capture/Program.antt =====
-- src/main.c: the options, and the loop that captures. The loop calls a function `capture_next` and a
-- `capture_open` that src/capture.h does not have, so what they give is an argument: whether there is
-- a handle, and for each round whether `running` is still set and what `capture_next` returns.
-- `getopt` gives a list of options. The messages are left out.
pub mod Counts
use pktsnare.Common.{
  ℕ, zero, suc, ◌+◌, ◌-◌, ◌*◌, ◌/◌, ◌%◌, ◌^◌, ◌≤◌, ◌<◌, ◌≡◌, refl, sym, ap, ap₂, subst, ◌∙◌, ◌≢◌,
  ◌↔◌, ◌⊎◌, inl, inr, Bool, true, false, not, ◌&&◌, ◌||◌, Option, none, some, List, [], ◌∷◌, ◌++◌,
  map, Perm, arith, min, ℕ_discrete, ltb, leb, ◌==◌, if◌then◌else◌, ==_iff, ==_refl, Bool-cases,
  Option-cases, length, get_elem?, get_or, set, modify, take, drop, replicate, All, length-append,
  length-set, length-modify, length-replicate, length-take, get_elem?-eq-get_or, get_elem?-none,
  get_elem?-some, get_elem?-set_self, get_elem?-set_ne, modify-set, modify-eq-set, take-set,
  take-set_end, take-suc, take_all, take-take_append, All-get_elem?, All-set, All-of_get_elem?,
  All-replicate, add8, add16, add32, add64, sub32, sub64, bit_and, bit_or, bit_xor,
}
use mathlib.Core.Option
use pktsnare.Common.Int.{ℤ, pos, negsuc, success, failure, ltb_ℤ}
use pktsnare.Common.Text.{atoi}

-- An option that `getopt` gives, with its argument; `bad` is one that it does not know.
pub data Opt : Type 0 where
  iface count snaplen filter : List ℕ → Opt
  verbose help bad : Opt

-- The variables of `main`; `iface` is `none` for `DEFAULT_IFACE`.
pub record Config : Type 0 where
  pub iface : Option (List ℕ)
  pub filter : Option (List ℕ)
  pub count : ℤ
  pub snaplen : ℤ
  pub verbose : Bool

abbrev pub defaults : Config
defaults = record {
  iface = none;
  filter = none;
  count = pos 0;
  snaplen = pos 1514;
  verbose = false;
}

-- How `main` ends: with the usage, with an error, or behind the loop
pub data Outcome : Type 0 where
  usage bad_option bad_snaplen not_opened : Outcome
  captured : Config → ℕ → Outcome

-- The loop over the options: the variables, or how `main` ends
unfoldable pub parse : Config → List Opt → Outcome ⊎ Config
parse c [] = inr c
parse c (iface a ∷ os) = parse (record c { iface = some a }) os
parse c (count a ∷ os) = parse (record c { count = atoi a }) os
parse c (snaplen a ∷ os) = parse (record c { snaplen = atoi a }) os
parse c (filter a ∷ os) = parse (record c { filter = some a }) os
parse c (verbose ∷ os) = parse (record c { verbose = true }) os
parse c (help ∷ os) = inl usage
parse c (bad ∷ os) = inl bad_option

-- A round: whether `running` is set, and what `capture_next` returns if it is called
abbrev pub Round : Type 0
Round = Bool × ℤ

abbrev pub is_zero : ℤ → Bool
is_zero (pos n) = n == 0
is_zero (negsuc n) = false

-- The loop's condition but for `running`
abbrev pub wants_more : ℤ → ℕ → Bool
wants_more limit done = is_zero limit || ltb_ℤ (pos done) limit

-- The loop on the rounds that there are; `none` is a loop that still runs.
unfoldable pub capture : ℤ → ℕ → List Round → Option ℕ
capture limit done [] = if wants_more limit done then none else some done
capture limit done ((running, ret) ∷ rs) = elim (running && wants_more limit done) [
  | false ↦ some done
  | true ↦ elim (ltb_ℤ ret (pos 0)) [
    | true ↦ some done
    | false ↦ capture limit (if ltb_ℤ (pos 0) ret then done + 1 else done) rs
  ]
]

-- `main` behind its options
unfoldable pub run : Config → Bool → List Round → Option Outcome
run c opened rs =
    if ltb_ℤ c.snaplen (pos 64) || ltb_ℤ (pos 65535) c.snaplen
    then some bad_snaplen
    else if not opened
    then some not_opened
    else Option.map (captured c) (capture c.count 0 rs)

unfoldable pub main : List Opt → Bool → List Round → Option Outcome
main os opened rs = elim (parse defaults os) [ inl out ↦ some out | inr c ↦ run c opened rs ]

-- Whether `main` returns `EXIT_SUCCESS`
abbrev pub succeeds : Outcome → Bool
succeeds usage = true
succeeds bad_option = false
succeeds bad_snaplen = false
succeeds not_opened = false
succeeds (captured c n) = true
