-- ===== src/Ethtype.antt =====
-- src/ethtype.c and src/ethtype.h: the EtherTypes and their names. A text is its characters, and the
-- pointers are there (no NULL). The sentinel of the table is the end of the list.
pub mod Names
mod Tests
use pktsnare.Common.{
  ℕ, zero, suc, ◌+◌, ◌-◌, ◌*◌, ◌/◌, ◌%◌, ◌^◌, ◌≤◌, ◌<◌, ◌≡◌, refl, sym, ap, ap₂, subst, ◌∙◌, ◌≢◌,
  ◌↔◌, ◌⊎◌, inl, inr, Bool, true, false, not, ◌&&◌, ◌||◌, Option, none, some, List, [], ◌∷◌, ◌++◌,
  map, Perm, arith, min, ℕ_discrete, ltb, leb, ◌==◌, if◌then◌else◌, ==_iff, ==_refl, Bool-cases,
  Option-cases, length, get_elem?, get_or, set, modify, take, drop, replicate, All, length-append,
  length-set, length-modify, length-replicate, length-take, get_elem?-eq-get_or, get_elem?-none,
  get_elem?-some, get_elem?-set_self, get_elem?-set_ne, modify-set, modify-eq-set, take-set,
  take-set_end, take-suc, take_all, take-take_append, All-get_elem?, All-set, All-of_get_elem?,
  All-replicate, add8, add16, add32, add64, sub32, sub64, bit_and, bit_or, bit_xor,
}
use mathlib.Core.Option
use pktsnare.Common.Text.{codes, same}

abbrev pub table : List (ℕ × List ℕ)
table =
    (0x0800, codes "IPv4")
    ∷ (0x0806, codes "ARP")
    ∷ (0x0842, codes "WakeOnLAN")
    ∷ (0x86DD, codes "IPv6")
    ∷ (0x8100, codes "802.1Q")
    ∷ (0x88A8, codes "802.1ad")
    ∷ (0x8847, codes "MPLS-UC")
    ∷ (0x8848, codes "MPLS-MC")
    ∷ (0x8863, codes "PPPoE-Disc")
    ∷ (0x8864, codes "PPPoE-Sess")
    ∷ (0x88CC, codes "LLDP")
    ∷ (0x9100, codes "QinQ")
    ∷ []

abbrev pub unknown : List ℕ
unknown = codes "Unknown"

-- The loop of `ethtype_name`
unfoldable pub name_in : ℕ → List (ℕ × List ℕ) → Option (List ℕ)
name_in n [] = none
name_in n ((code, s) ∷ es) = if code == n then some s else name_in n es

unfoldable pub name : ℕ → List ℕ
name n = elim (name_in n table) [ none ↦ unknown | some s ↦ s ]

abbrev pub is_vlan : ℕ → Bool
is_vlan n = n == 0x8100 || (n == 0x88A8 || n == 0x9100)

abbrev pub is_ip : ℕ → Bool
is_ip n = n == 0x0800 || n == 0x86DD

abbrev pub lower : ℕ → ℕ
lower c = if leb b'A' c && leb c b'Z' then c + 32 else c

-- `strcasecmp(a, b) == 0`
abbrev pub same_case : List ℕ → List ℕ → Bool
same_case a b = same (map lower a) (map lower b)

-- The loop of `ethtype_lookup`
unfoldable pub lookup_in : List ℕ → List (ℕ × List ℕ) → Option ℕ
lookup_in s [] = none
lookup_in s ((code, t) ∷ es) = if same_case t s then some code else lookup_in s es

-- `none` is -1, and `*out` left as it was.
abbrev pub lookup : List ℕ → Option ℕ
lookup s = lookup_in s table
