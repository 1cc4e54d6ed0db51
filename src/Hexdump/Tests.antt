-- ===== src/Hexdump/Tests.antt =====
-- Runs of the model of src/hexdump.c, and its theorems at concrete inputs.
use pktsnare.Common.{ℕ, ◌≡◌, refl, true, some, List, [], ◌∷◌, ◌++◌, arith, length, replicate}
use pktsnare.Common.Text.{codes}
use pktsnare.Hexdump.{print_at, dump, to_buf, hex_columns, digits, width, row, rows, print}
use pktsnare.Hexdump.Buf.{decode-to_buf, decode, c_string}

-- A buffer of eight characters has room for two bytes.
to_buf_run :
    to_buf (222 ∷ 173 ∷ 190 ∷ []) (replicate 8 b'x') 8 ≡ some (codes "de ad " ++ (0 ∷ b'x' ∷ []))
unfolding to_buf dump print_at
to_buf_run = refl

-- Every character is taken for printable.
print_run :
    print (λ c. true) (b'H' ∷ b'i' ∷ []) 31
    ≡ codes "0000001f  48 69                                             |Hi|\n"
unfolding print rows row digits width hex_columns
print_run = refl

abbrev three : List ℕ
three = 222 ∷ 173 ∷ 190 ∷ []

decode-to_buf_example :
    (out : List ℕ) × (to_buf three (replicate 8 7) 8 ≡ some out)
    × (length out ≡ 8)
    × (decode (c_string out) ≡ 222 ∷ 173 ∷ [])
decode-to_buf_example = decode-to_buf three (replicate 8 7) 8 refl (omega arith) (omega arith)
