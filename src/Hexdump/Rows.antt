-- ===== src/Hexdump/Rows.antt =====
-- `hexdump_print` of src/hexdump.c: the rows that it writes.
use pktsnare.Common.{
  ℕ, zero, suc, ◌+◌, ◌*◌, ◌/◌, ◌%◌, ◌^◌, ◌≤◌, ◌<◌, ◌≡◌, refl, ap, ◌∙◌, Bool, true, ◌&&◌, List, [],
  ◌∷◌, ◌++◌, arith, min, ltb, leb, if◌then◌else◌, length, take, drop, length-append, length-take,
  add64,
}
use pktsnare.Common.Slices.{length-drop}
use pktsnare.Hexdump.{
  hex_digit, hex_columns, digits, width, address, printable, row, rows, print, bytes_per_row,
}

length-digits : (w n : ℕ) → length (digits w n) ≡ w
unfolding digits
length-digits zero n = refl
length-digits (suc w) n =
    omega
      (arith, length-append (digits w (n / 16)) (hex_digit (n % 16) ∷ []), length-digits w (n / 16))

eight : (n : ℕ) → n < 2 ^ 32 → width 8 8 n ≡ 8
unfolding width
eight n h = let fits : ltb n 4294967296 ≡ true = ground arith in rw fits refl

length-address : (n : ℕ) → n < 2 ^ 32 → length (address n) ≡ 8
length-address n h = length-digits (width 8 8 n) n ∙ eight n h

-- The gap behind the eighth column, where it is still to come
gap : ℕ → ℕ → ℕ
gap n j = if leb j 7 && ltb 7 (j + n) then 1 else 0

length-hex_columns : (n j : ℕ) (bytes : List ℕ) → length (hex_columns n j bytes) ≡ 3 * n + gap n j
unfolding hex_columns gap
length-hex_columns zero j bytes = ground arith
length-hex_columns (suc n) j [] = ground (arith, length-hex_columns n (j + 1) [])
length-hex_columns (suc n) j (b ∷ bytes) = ground (arith, length-hex_columns n (j + 1) bytes)

module _ (is_print : ℕ → Bool) where
  length-printable : (bytes : List ℕ) → length (printable is_print bytes) ≡ length bytes
  length-printable [] = refl
  length-printable (b ∷ bytes) = ap suc (length-printable bytes)

  length-row :
      (at : ℕ) (bytes : List ℕ)
      → at < 2 ^ 32
      → length (row is_print at bytes) ≡ 63 + min 16 (length bytes)
  unfolding row gap
  length-row at bytes h = omega (
    arith,
    length-append (address at) (
        32
        ∷ (32
            ∷ (hex_columns bytes_per_row 0 (take bytes_per_row bytes)
                ++ (32
                    ∷ (b'|'
                        ∷ (printable is_print (take bytes_per_row bytes) ++ (b'|' ∷ 10 ∷ []))))))),
    length-append (hex_columns bytes_per_row 0 (take bytes_per_row bytes))
        (32 ∷ (b'|' ∷ (printable is_print (take bytes_per_row bytes) ++ (b'|' ∷ 10 ∷ [])))),
    length-append (printable is_print (take bytes_per_row bytes)) (b'|' ∷ 10 ∷ []),
    length-address at h,
    length-hex_columns bytes_per_row 0 (take bytes_per_row bytes),
    length-printable (take bytes_per_row bytes),
    length-take bytes_per_row bytes,
  )

  length-rows :
      (fuel at : ℕ) (bytes : List ℕ)
      → length bytes ≤ fuel
      → (0 < length bytes → at + length bytes ≤ 2 ^ 32)
      → length (rows is_print fuel at bytes) ≡ 63 * ((length bytes + 15) / 16) + length bytes
  unfolding rows
  length-rows zero at [] f h = omega arith
  length-rows zero at (b ∷ bytes) f h = absurd (omega arith)
  length-rows (suc fuel) at [] f h = omega arith
  length-rows (suc fuel) at (b ∷ bytes) f h =
      let small : at + suc (length bytes) ≤ 2 ^ 32 = h (omega arith) in
      let rest = drop 15 bytes in
      let ih =
        length-rows fuel (add64 at bytes_per_row) rest (omega (arith, length-drop 15 bytes))
          (λ p. omega (arith, length-drop 15 bytes)) in
      omega (
        arith,
        length-append (row is_print at (b ∷ bytes))
            (rows is_print fuel (add64 at bytes_per_row) rest),
        length-row at (b ∷ bytes) (omega arith),
        ih,
        length-drop 15 bytes,
      )

  -- `hexdump_print` of src/hexdump.c, where the addresses stay below 2^32: it writes a row for each 16
  -- bytes begun, of 63 characters and one for each of its bytes, and nothing else.
  pub length-print :
      (bytes : List ℕ) (offset : ℕ)
      → offset + length bytes ≤ 2 ^ 32
      → length (print is_print bytes offset) ≡ 63 * ((length bytes + 15) / 16) + length bytes
  unfolding print
  length-print bytes offset h = length-rows (length bytes) offset bytes (omega arith) (λ p. h)
