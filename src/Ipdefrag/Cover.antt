-- ===== src/Ipdefrag/Cover.antt =====
-- src/ipdefrag.c on pieces of a datagram that come in any order: what one piece writes.
use pktsnare.Common.{
  ℕ, zero, suc, ◌+◌, ◌-◌, ◌≤◌, ◌<◌, ◌≡◌, refl, ap, ◌∙◌, inl, inr, Bool, false, ◌&&◌, List, [], ◌∷◌,
  ◌++◌, arith, ltb, leb, Bool-cases, length, get_elem?, take, drop, replicate, length-take,
}
use pktsnare.Ipdefrag.{grown}

-- A fragment
pub record Piece : Type 0 where
  pub offset : ℕ
  pub bytes : List ℕ
  pub more : Bool

abbrev pub end_of : Piece → ℕ
end_of p = p.offset + length p.bytes

-- The fragment is a part of the datagram `whole`, and the last one if it reaches the end.
pub record IsPart (whole : List ℕ) (p : Piece) : Type 0 where
  pub same : (j : ℕ) → j < length p.bytes → get_elem? p.bytes j ≡ get_elem? whole (p.offset + j)
  pub inside : end_of p ≤ length whole
  pub last : p.more ≡ ltb (end_of p) (length whole)

abbrev pub spans : Piece → ℕ → Bool
spans p j = leb p.offset j && ltb j (end_of p)

get_elem?-take : (n : ℕ) (xs : List ℕ) (j : ℕ) → j < n → get_elem? (take n xs) j ≡ get_elem? xs j
get_elem?-take zero xs j h = absurd (omega arith)
get_elem?-take (suc n) [] j h = refl
get_elem?-take (suc n) (x ∷ xs) zero h = refl
get_elem?-take (suc n) (x ∷ xs) (suc j) h = get_elem?-take n xs j (omega arith)

get_elem?-append_left :
    (xs ys : List ℕ) (j : ℕ) → j < length xs → get_elem? (xs ++ ys) j ≡ get_elem? xs j
get_elem?-append_left [] ys j h = absurd (omega arith)
get_elem?-append_left (x ∷ xs) ys zero h = refl
get_elem?-append_left (x ∷ xs) ys (suc j) h = get_elem?-append_left xs ys j (omega arith)

get_elem?-append_right :
    (xs ys : List ℕ) (j i : ℕ) → j ≡ length xs + i → get_elem? (xs ++ ys) j ≡ get_elem? ys i
get_elem?-append_right [] ys j i e = ap (get_elem? ys) (omega arith)
get_elem?-append_right (x ∷ xs) ys zero i e = absurd (omega arith)
get_elem?-append_right (x ∷ xs) ys (suc j) i e = get_elem?-append_right xs ys j i (omega arith)

get_elem?-drop :
    (n : ℕ) (xs : List ℕ) (j k : ℕ) → k ≡ n + j → get_elem? (drop n xs) j ≡ get_elem? xs k
get_elem?-drop zero xs j k e = ap (get_elem? xs) (omega arith)
get_elem?-drop (suc n) [] j k e = refl
get_elem?-drop (suc n) (x ∷ xs) j zero e = absurd (omega arith)
get_elem?-drop (suc n) (x ∷ xs) j (suc k) e = get_elem?-drop n xs j k (omega arith)

-- What is at an index after the bytes `c` have been written at `o`
abbrev pub written : List ℕ → ℕ → List ℕ → List ℕ
written b o c = take o b ++ (c ++ drop (o + length c) b)

pub get_elem?-written_there :
    (b : List ℕ) (o : ℕ) (c : List ℕ) (j : ℕ)
    → o + length c ≤ length b
    → o ≤ j
    → j < o + length c
    → get_elem? (written b o c) j ≡ get_elem? c (j - o)
get_elem?-written_there b o c j h l u =
    get_elem?-append_right (take o b) (c ++ drop (o + length c) b) j (j - o)
      (omega (arith, length-take o b))
    ∙ get_elem?-append_left c (drop (o + length c) b) (j - o) (omega arith)

get_elem?-written_before :
    (b : List ℕ) (o : ℕ) (c : List ℕ) (j : ℕ)
    → o + length c ≤ length b
    → j < o
    → get_elem? (written b o c) j ≡ get_elem? b j
get_elem?-written_before b o c j h l =
    get_elem?-append_left (take o b) (c ++ drop (o + length c) b) j (omega (arith, length-take o b))
    ∙ get_elem?-take o b j l

get_elem?-written_behind :
    (b : List ℕ) (o : ℕ) (c : List ℕ) (j : ℕ)
    → o + length c ≤ length b
    → o + length c ≤ j
    → get_elem? (written b o c) j ≡ get_elem? b j
get_elem?-written_behind b o c j h l =
    get_elem?-append_right (take o b) (c ++ drop (o + length c) b) j (j - o)
      (omega (arith, length-take o b))
    ∙ (get_elem?-append_right c (drop (o + length c) b) (j - o) (j - o - length c) (omega arith)
        ∙ get_elem?-drop (o + length c) b (j - o - length c) j (omega arith))

-- The other indices keep what they had.
pub get_elem?-written_ne :
    (b : List ℕ) (o : ℕ) (c : List ℕ) (j : ℕ)
    → o + length c ≤ length b
    → leb o j && ltb j (o + length c) ≡ false
    → get_elem? (written b o c) j ≡ get_elem? b j
get_elem?-written_ne b o c j h n = elim (Bool-cases (leb o j)) [
  | inr before ↦ get_elem?-written_before b o c j h (ground arith)
  | inl behind ↦ get_elem?-written_behind b o c j h (ground arith)
]

pub get_elem?-grown :
    (n : ℕ) (fresh bytes : List ℕ) (j : ℕ)
    → j < length bytes
    → j < n
    → get_elem? (grown n fresh bytes) j ≡ get_elem? bytes j
get_elem?-grown n fresh bytes j h l =
    get_elem?-take n (bytes ++ (fresh ++ replicate n 0)) j l
    ∙ get_elem?-append_left bytes (fresh ++ replicate n 0) j h
