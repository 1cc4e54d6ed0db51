-- ===== src/Hexdump.antt =====
-- src/hexdump.c: bytes as hexadecimal text, into a buffer and onto a stream. A buffer is a list of
-- characters whose length is that of the memory behind it; the outer `none` is a write past its end.
-- The pointers are there (no NULL). What a stream gets is a list of characters; `isprint` is an
-- argument, since it depends on the locale.
pub mod Buf
pub mod Rows
mod Tests
use pktsnare.Common.{
  ℕ, zero, suc, ◌+◌, ◌-◌, ◌*◌, ◌/◌, ◌%◌, ◌^◌, ◌≤◌, ◌<◌, ◌≡◌, refl, sym, ap, ap₂, subst, ◌∙◌, ◌≢◌,
  ◌↔◌, ◌⊎◌, inl, inr, Bool, true, false, not, ◌&&◌, ◌||◌, Option, none, some, List, [], ◌∷◌, ◌++◌,
  map, Perm, arith, min, ℕ_discrete, ltb, leb, ◌==◌, if◌then◌else◌, ==_iff, ==_refl, Bool-cases,
  Option-cases, length, get_elem?, get_or, set, modify, take, drop, replicate, All, length-append,
  length-set, length-modify, length-replicate, length-take, get_elem?-eq-get_or, get_elem?-none,
  get_elem?-some, get_elem?-set_self, get_elem?-set_ne, modify-set, modify-eq-set, take-set,
  take-set_end, take-suc, take_all, take-take_append, All-get_elem?, All-set, All-of_get_elem?,
  All-replicate, add8, add16, add32, add64, sub32, sub64, bit_and, bit_or, bit_xor,
}

abbrev pub bytes_per_row : ℕ
bytes_per_row = 16

abbrev pub hex_digit : ℕ → ℕ
hex_digit d = if ltb d 10 then b'0' + d else b'a' + (d - 10)

-- `%02x` of a byte
abbrev pub hex : ℕ → List ℕ
hex b = hex_digit (b / 16) ∷ hex_digit (b % 16) ∷ []

-- The text of byte `i`, with a new line behind each row
abbrev pub piece : ℕ → ℕ → List ℕ
piece i b = hex b ++ ((if (i + 1) % bytes_per_row == 0 then 10 else 32) ∷ [])

-- `snprintf(buf + at, size, …)` of a text: as much of it as fits the size, and a NUL
unfoldable pub print_at : List ℕ → ℕ → ℕ → List ℕ → Option (List ℕ)
print_at buf at size text =
    let shown = take (size - 1) text in
    if leb (at + length shown + 1) (length buf)
    then some (take at buf ++ (shown ++ (0 ∷ drop (at + length shown + 1) buf)))
    else none

-- The loop of `hexdump_buf` from byte `i` on, which `bytes` begins with
unfoldable pub dump : ℕ → List ℕ → ℕ → ℕ → List ℕ → Option (List ℕ)
dump out_sz [] i at buf = some buf
dump out_sz (b ∷ bytes) i at buf = elim (ltb (at + 4) out_sz) [
  | false ↦ some buf
  | true ↦ elim (print_at buf at (out_sz - at) (piece i b)) [
    | none ↦ none
    | some buf' ↦ dump out_sz bytes (i + 1) (at + length (piece i b)) buf'
  ]
]

unfoldable pub to_buf : List ℕ → List ℕ → ℕ → Option (List ℕ)
to_buf bytes buf out_sz =
    if out_sz == 0
    then some buf
    else if length buf == 0
    then none
    else dump out_sz bytes 0 0 (set buf 0 0)

-- The columns `from` to 15 of a row's hexadecimal part
unfoldable pub hex_columns : ℕ → ℕ → List ℕ → List ℕ
hex_columns zero j bytes = []
hex_columns (suc n) j bytes =
    let gap = if j == 7 then 32 ∷ [] else [] in
    elim bytes [
      | [] ↦ (32 ∷ 32 ∷ 32 ∷ []) ++ (gap ++ hex_columns n (j + 1) [])
      | b ∷ bs ↦ hex b ++ (32 ∷ (gap ++ hex_columns n (j + 1) bs))
    ]

-- The last `w` hexadecimal digits of a number
unfoldable pub digits : ℕ → ℕ → List ℕ
digits zero n = []
digits (suc w) n = digits w (n / 16) ++ (hex_digit (n % 16) ∷ [])

-- At least `w` digits, and up to `more` further ones where the number needs them
unfoldable pub width : ℕ → ℕ → ℕ → ℕ
width zero w n = w
width (suc more) w n = let wider = width more (w + 1) n in if ltb n (16 ^ w) then w else wider

-- `%08zx` of a number of 64 bits
abbrev pub address : ℕ → List ℕ
address n = digits (width 8 8 n) n

module _ (is_print : ℕ → Bool) where
  abbrev pub printable : List ℕ → List ℕ
  printable [] = []
  printable (b ∷ bytes) = (if is_print b then b else b'.') ∷ printable bytes

  -- A round of the outer loop of `hexdump_print`, on the bytes from `i` on
  unfoldable pub row : ℕ → List ℕ → List ℕ
  row at bytes =
      address at
      ++ (32
          ∷ (32
              ∷ (hex_columns bytes_per_row 0 (take bytes_per_row bytes)
                  ++ (32 ∷ (b'|' ∷ (printable (take bytes_per_row bytes) ++ (b'|' ∷ 10 ∷ [])))))))

  -- The outer loop on fuel: one round needs at least one byte.
  unfoldable pub rows : ℕ → ℕ → List ℕ → List ℕ
  rows zero at bytes = []
  rows (suc fuel) at [] = []
  rows (suc fuel) at (b ∷ bytes) =
      row at (b ∷ bytes) ++ rows fuel (add64 at bytes_per_row) (drop bytes_per_row (b ∷ bytes))

  unfoldable pub print : List ℕ → ℕ → List ℕ
  print bytes offset = rows (length bytes) offset bytes
