-- ===== src/Portmap.antt =====
-- src/portmap.c and src/portmap.h: names of ports, in a packed array. The table and the names
-- are there (no NULL), and a name is its characters, without the NUL that ends it.
pub mod Laws
pub mod Removal
mod Tests
use pktsnare.Common.{
  ℕ, ◌+◌, ◌-◌, Bool, ◌&&◌, Option, none, some, List, [], ◌∷◌, ◌++◌, map, leb, ◌==◌, if◌then◌else◌,
  get_elem?, set, modify, take, replicate,
}
use mathlib.Core.Option
use pktsnare.Common.Int.{ℤ, success, failure}
use pktsnare.Table.Scan.{scan}
use pktsnare.Table.Packed.{copy_slot}

abbrev pub max_entries : ℕ
max_entries = 64

abbrev pub name_len : ℕ
name_len = 16

-- `portmap_entry_t`
pub record Entry : Type 0 where
  pub port : ℕ
  pub proto : ℕ
  pub name : List ℕ

-- `portmap_t`
pub record Portmap : Type 0 where
  pub entries : List Entry
  pub count : ℕ

abbrev pub zeroed : Entry
zeroed = record { port = 0; proto = 0; name = [] }

abbrev pub tcp : ℕ
tcp = 6

abbrev pub udp : ℕ
udp = 17

-- The table `defaults`; the names are their ASCII codes.
abbrev pub defaults : List Entry
defaults =
    record { port = 20; proto = tcp; name = 102 ∷ 116 ∷ 112 ∷ 45 ∷ 100 ∷ 97 ∷ 116 ∷ 97 ∷ [] }
    ∷ record { port = 21; proto = tcp; name = 102 ∷ 116 ∷ 112 ∷ [] }
    ∷ record { port = 22; proto = tcp; name = 115 ∷ 115 ∷ 104 ∷ [] }
    ∷ record { port = 23; proto = tcp; name = 116 ∷ 101 ∷ 108 ∷ 110 ∷ 101 ∷ 116 ∷ [] }
    ∷ record { port = 25; proto = tcp; name = 115 ∷ 109 ∷ 116 ∷ 112 ∷ [] }
    ∷ record { port = 53; proto = tcp; name = 100 ∷ 110 ∷ 115 ∷ [] }
    ∷ record { port = 53; proto = udp; name = 100 ∷ 110 ∷ 115 ∷ [] }
    ∷ record { port = 67; proto = udp; name = 100 ∷ 104 ∷ 99 ∷ 112 ∷ 45 ∷ 115 ∷ 114 ∷ 118 ∷ [] }
    ∷ record { port = 68; proto = udp; name = 100 ∷ 104 ∷ 99 ∷ 112 ∷ 45 ∷ 99 ∷ 108 ∷ 105 ∷ [] }
    ∷ record { port = 80; proto = tcp; name = 104 ∷ 116 ∷ 116 ∷ 112 ∷ [] }
    ∷ record { port = 123; proto = udp; name = 110 ∷ 116 ∷ 112 ∷ [] }
    ∷ record { port = 443; proto = tcp; name = 104 ∷ 116 ∷ 116 ∷ 112 ∷ 115 ∷ [] }
    ∷ record { port = 514; proto = udp; name = 115 ∷ 121 ∷ 115 ∷ 108 ∷ 111 ∷ 103 ∷ [] }
    ∷ record { port = 8080; proto = tcp; name = 104 ∷ 116 ∷ 116 ∷ 112 ∷ 45 ∷ 97 ∷ 108 ∷ 116 ∷ [] }
    ∷ []

-- `portmap_init`; the number of defaults is 14, below the 64 of the array.
unfoldable pub init : Portmap
init = record { entries = defaults ++ replicate 50 zeroed; count = 14 }

unfoldable pub clear : Portmap
clear = record { entries = replicate max_entries zeroed; count = 0 }

-- `entries[i].port == port && entries[i].proto == proto`
abbrev pub is : ℕ → ℕ → Entry → Bool
is port proto e = e.port == port && e.proto == proto

-- What `strncpy` of 15 characters leaves before the NUL.
abbrev pub cut : List ℕ → List ℕ
cut name = take (name_len - 1) name

abbrev pub rename : List ℕ → Entry → Entry
rename name e = record e { name = cut name }

abbrev pub entry : ℕ → ℕ → List ℕ → Entry
entry port proto name = record { port = port; proto = proto; name = cut name }

unfoldable pub register : Portmap → ℕ → ℕ → List ℕ → ℤ × Portmap
register pm port proto name =
    if leb max_entries pm.count
    then (failure, pm)
    else elim (scan (is port proto) pm.count pm.entries) [
      | some i ↦ (success, record pm { entries = modify pm.entries i (rename name) })
      | none ↦ (
        success,
        record { entries = set pm.entries pm.count (entry port proto name); count = pm.count + 1 },
      )
    ]

unfoldable pub lookup : Portmap → ℕ → ℕ → Option (List ℕ)
lookup pm port proto = elim (scan (is port proto) pm.count pm.entries) [
  | none ↦ none
  | some i ↦ Option.map (λ e. e.name) (get_elem? pm.entries i)
]

unfoldable pub remove : Portmap → ℕ → ℕ → ℤ × Portmap
remove pm port proto = elim (scan (is port proto) pm.count pm.entries) [
  | none ↦ (failure, pm)
  | some i ↦
      (success, record { entries = copy_slot pm.entries i (pm.count - 1); count = pm.count - 1 })
]
