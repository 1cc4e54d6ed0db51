-- ===== src/Iface.antt =====
-- src/iface.c: questions about network interfaces. src/iface.h declares another `iface_list` than
-- src/iface.c has, so the functions are taken as the code has them. What the system answers is an
-- argument: whether there is a socket, and what `ioctl` gives; what `if_nameindex` gives is a list of
-- numbers and names, up to the number 0. A name is its characters; the interface's flags are the bit
-- `IFF_UP`.
pub mod Listing
mod Tests
use pktsnare.Common.{
  ℕ, zero, suc, ◌+◌, ◌-◌, ◌*◌, ◌/◌, ◌%◌, ◌^◌, ◌≤◌, ◌<◌, ◌≡◌, refl, sym, ap, ap₂, subst, ◌∙◌, ◌≢◌,
  ◌↔◌, ◌⊎◌, inl, inr, Bool, true, false, not, ◌&&◌, ◌||◌, Option, none, some, List, [], ◌∷◌, ◌++◌,
  map, Perm, arith, min, ℕ_discrete, ltb, leb, ◌==◌, if◌then◌else◌, ==_iff, ==_refl, Bool-cases,
  Option-cases, length, get_elem?, get_or, set, modify, take, drop, replicate, All, length-append,
  length-set, length-modify, length-replicate, length-take, get_elem?-eq-get_or, get_elem?-none,
  get_elem?-some, get_elem?-set_self, get_elem?-set_ne, modify-set, modify-eq-set, take-set,
  take-set_end, take-suc, take_all, take-take_append, All-get_elem?, All-set, All-of_get_elem?,
  All-replicate, add8, add16, add32, add64, sub32, sub64, bit_and, bit_or, bit_xor,
}
use pktsnare.Common.Int.{ℤ, pos, negsuc, failure, ltb_ℤ}

abbrev pub name_size : ℕ
name_size = 16

-- The interface that a name finds in the system
pub record Found : Type 0 where
  pub up : Bool
  pub mtu : ℤ

-- `ask` is `ioctl` on a name of at most 15 characters, `none` where it fails.
module _ (ask : List ℕ → Option Found) where
  unfoldable pub exists_ : Option (List ℕ) → Bool → Bool
  exists_ none sock = false
  exists_ (some name) sock =
      if length name == 0
      then false
      else if not sock
      then false
      else elim (ask (take (name_size - 1) name)) [ none ↦ false | some f ↦ true ]

  unfoldable pub is_up : Option (List ℕ) → Bool → Bool
  is_up none sock = false
  is_up (some name) sock =
      if not sock
      then false
      else elim (ask (take (name_size - 1) name)) [ none ↦ false | some f ↦ f.up ]

  unfoldable pub get_mtu : Option (List ℕ) → Bool → ℤ
  get_mtu none sock = failure
  get_mtu (some name) sock =
      if not sock
      then failure
      else elim (ask (take (name_size - 1) name)) [ none ↦ failure | some f ↦ f.mtu ]

-- The loop of `iface_list`; a write behind the rows that there are is `none`.
unfoldable pub list_from : List (ℕ × List ℕ) → ℕ → ℤ → List (List ℕ) → Option (ℕ × List (List ℕ))
list_from [] count max_count out = some (count, out)
list_from ((index, name) ∷ ps) count max_count out =
    elim (index == 0 || not (ltb_ℤ (pos count) max_count)) [
      | true ↦ some (count, out)
      | false ↦ elim (ltb count (length out)) [
        | false ↦ none
        | true ↦ list_from ps (count + 1) max_count (set out count (take (name_size - 1) name))
      ]
    ]

-- `ifaces` is `none` for NULL.
unfoldable pub list : Option (List (ℕ × List ℕ)) → ℤ → List (List ℕ) → Option (ℕ × List (List ℕ))
list none max_count out = some (0, out)
list (some ifaces) max_count out = list_from ifaces 0 max_count out
