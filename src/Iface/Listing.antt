-- ===== src/Iface/Listing.antt =====
-- What src/iface.c says of an interface, and what it writes into a list of names.
use pktsnare.Common.{
  ℕ, suc, ◌+◌, ◌-◌, ◌≤◌, ◌<◌, ◌≡◌, refl, sym, ap, ◌∙◌, inl, inr, false, some, List, [], ◌∷◌, ◌++◌,
  arith, min, ltb, ◌==◌, Bool-cases, length, set, take, All, length-set, take-set_end, take-cons,
  take_all,
}
use mathlib.Core.List.{append-nil, append_assoc}
use native.Mathlib.Numerals.{add-one}
use pktsnare.Common.Int.{pos}
use pktsnare.Iface.{name_size, list_from, list}

-- The names that the rows get
abbrev pub short : List (ℕ × List ℕ) → List (List ℕ)
short [] = []
short ((index, name) ∷ ps) = take (name_size - 1) name ∷ short ps

abbrev pub IsEntry : ℕ × List ℕ → Type 0
IsEntry p = p.0 == 0 ≡ false

-- A row written behind the first ones
one_row :
    (out : List (List ℕ)) (row : List ℕ) (rows : List (List ℕ)) (count max_count : ℕ)
    → count < max_count
    → count < length out
    → take (count + 1) (set out count row) ++ take (max_count - (count + 1)) rows
      ≡ take count out ++ take (max_count - count) (row ∷ rows)
one_row out row rows count max_count h l =
    rw (add-one, take-set_end count out row l, take-cons (max_count - count) row rows (omega arith))
      (append_assoc (take count out) (row ∷ []) (take (max_count - suc count) rows)
        ∙ ap (λ (n : ℕ). take count out ++ (row ∷ take n rows)) (omega arith))

list_from_lem :
    (ps : List (ℕ × List ℕ)) (count max_count : ℕ) (out : List (List ℕ))
    → All IsEntry ps
    → count ≤ max_count
    → max_count ≤ length out
    → (out' : List (List ℕ)) × (list_from ps count (pos max_count) out
        ≡ some (min max_count (count + length ps), out'))
      × (take (min max_count (count + length ps)) out'
          ≡ take count out ++ take (max_count - count) (short ps))
      × (length out' ≡ length out)
unfolding list_from
list_from_lem [] count max_count out h c l =
    let m : min max_count (count + 0) ≡ count = omega arith in
    (
      out,
      ap (λ (n : ℕ). some (n, out)) (sym m),
      rw (m, take_all {A = List ℕ} [] (max_count - count) (omega arith))
          (sym (append-nil (take count out))),
      refl,
    )
list_from_lem ((index, name) ∷ ps) count max_count out h c l =
    elim (Bool-cases (ltb count max_count)) [
      | inr full ↦
          let m : min max_count (count + length ((index, name) ∷ ps)) ≡ count = ground arith in
          let z : max_count - count ≡ 0 = ground arith in
          (out, ground (arith, m, h.0), rw (m, z) (sym (append-nil (take count out))), refl)
      | inl room ↦
          let row = take (name_size - 1) name in
          let ih =
            list_from_lem ps (count + 1) max_count (set out count row) h.1 (ground arith)
              (omega (arith, length-set out count row)) in
          let m : min max_count (count + 1 + length ps)
              ≡ min max_count (count + length ((index, name) ∷ ps)) =
            omega arith in
          (
            ih.0,
            ground (arith, h.0, ih.1, m),
            rw (← m)
                (ih.2 ∙ one_row out row (short ps) count max_count (ground arith) (ground arith)),
            ih.3 ∙ length-set out count row,
          )
    ]

-- `iface_list` of src/iface.c on the interfaces of the system, in memory of at least `max_count` rows:
-- it writes inside, returns the number of interfaces or `max_count`, whichever is less, and that many
-- rows hold their names in order, each cut to 15 characters.
pub list_lem :
    (ps : List (ℕ × List ℕ)) (max_count : ℕ) (out : List (List ℕ))
    → All IsEntry ps
    → max_count ≤ length out
    → (out' : List (List ℕ)) × (list (some ps) (pos max_count) out
        ≡ some (min max_count (length ps), out'))
      × (take (min max_count (length ps)) out' ≡ take max_count (short ps))
      × (length out' ≡ length out)
unfolding list
list_lem ps max_count out h l =
    let r = list_from_lem ps 0 max_count out h (omega arith) l in
    let m : min max_count (0 + length ps) ≡ min max_count (length ps) = omega arith in
    let z : max_count - 0 ≡ max_count = omega arith in (r.0, rw m at r.1, rw (m, z) at r.2, r.3)
