-- ===== src/Filter/Parse.antt =====
-- `filter_parse` of src/filter.c: that it ends, and what it makes of a text.
use pktsnare.Common.{
  ℕ, zero, suc, ◌≤◌, ◌<◌, ◌≡◌, refl, ◌∙◌, inl, inr, some, List, [], ◌∷◌, ◌++◌, arith, Option-cases,
  length, take, All, length-append, take_all,
}
use pktsnare.Common.Int.{ℤ, success, failure}
use pktsnare.Common.Text.{codes}
use pktsnare.Filter.{
  Proto, Ctx, keyword, takes, with_port, with_src_port, with_dst_port, with_src_host, with_dst_host,
  with_host, round, parse_words, parse, words_from,
}
use pktsnare.Filter.Words.{IsWord, join, words_from-join}

-- What a text can ask for; an argument is a word.
pub data Clause : Type 0 where
  only_tcp only_udp only_icmp : Clause
  either_port src_port dst_port src_host dst_host both_hosts : List ℕ → Clause

abbrev pub words_of : Clause → List (List ℕ)
words_of only_tcp = codes "tcp" ∷ []
words_of only_udp = codes "udp" ∷ []
words_of only_icmp = codes "icmp" ∷ []
words_of (either_port a) = codes "port" ∷ a ∷ []
words_of (src_port a) = codes "src" ∷ codes "port" ∷ a ∷ []
words_of (dst_port a) = codes "dst" ∷ codes "port" ∷ a ∷ []
words_of (src_host a) = codes "src" ∷ codes "host" ∷ a ∷ []
words_of (dst_host a) = codes "dst" ∷ codes "host" ∷ a ∷ []
words_of (both_hosts a) = codes "host" ∷ a ∷ []

-- The arguments are words.
abbrev pub IsClause : Clause → Type 0
IsClause only_tcp = Unit
IsClause only_udp = Unit
IsClause only_icmp = Unit
IsClause (either_port a) = IsWord a
IsClause (src_port a) = IsWord a
IsClause (dst_port a) = IsWord a
IsClause (src_host a) = IsWord a
IsClause (dst_host a) = IsWord a
IsClause (both_hosts a) = IsWord a

abbrev pub all_words : List Clause → List (List ℕ)
all_words [] = []
all_words (k ∷ ks) = words_of k ++ all_words ks

abbrev pub text : List Clause → List ℕ
text ks = join (all_words ks)

length-takes :
    (f : List ℕ → Ctx → Ctx) (c : Ctx) (ws rest : List (List ℕ)) {c' : Ctx}
    → takes f c ws ≡ some (c', rest)
    → length rest ≤ length ws
unfolding takes
length-takes f c [] rest e = cc
length-takes f c (a ∷ ws) rest e = ground arith

module _ (inet : List ℕ → ℕ) where
  abbrev pub apply : Clause → Ctx → Ctx
  apply only_tcp c = record c { proto = Proto.tcp }
  apply only_udp c = record c { proto = Proto.udp }
  apply only_icmp c = record c { proto = Proto.icmp }
  apply (either_port a) c = with_port a c
  apply (src_port a) c = with_src_port a c
  apply (dst_port a) c = with_dst_port a c
  apply (src_host a) c = with_src_host inet a c
  apply (dst_host a) c = with_dst_host inet a c
  apply (both_hosts a) c = with_host inet a c

  abbrev pub apply_all : List Clause → Ctx → Ctx
  apply_all [] c = c
  apply_all (k ∷ ks) c = apply_all ks (apply k c)

  round_shrinks :
      (c : Ctx) (w : List ℕ) (ws rest : List (List ℕ)) {c' : Ctx}
      → round inet c w ws ≡ some (c', rest)
      → length rest ≤ length ws
  unfolding round takes
  round_shrinks c w [] rest e = ground arith
  round_shrinks c w (v ∷ []) rest e = ground arith
  round_shrinks c w (v ∷ u ∷ ws) rest e = ground arith

  parse_words-total :
      (fuel : ℕ) (c : Ctx) (ws : List (List ℕ))
      → length ws ≤ fuel
      → (out : ℤ × Ctx) × (parse_words inet fuel c ws ≡ some out)
  unfolding parse_words
  parse_words-total fuel c [] h = ((success, c), refl)
  parse_words-total zero c (w ∷ ws) h = absurd (omega arith)
  parse_words-total (suc fuel) c (w ∷ ws) h = elim (Option-cases (round inet c w ws)) [
    | inl e ↦ ((failure, c), rw (e, parse_words))
    | inr ((c', rest), e) ↦
        rw (e, parse_words)
          (parse_words-total fuel c' rest (omega (arith, round_shrinks c w ws rest e)))
  ]

  -- For every text, `filter_parse` of src/filter.c comes to an end: its loop has at most as many
  -- rounds as the text has words.
  pub parse_total : (c : Ctx) (expr : List ℕ) → (out : ℤ × Ctx) × (parse inet c expr ≡ some out)
  unfolding parse
  parse_total c expr =
      let ws = words_from [] (take 255 expr) in parse_words-total (length ws) c ws (omega arith)

  round-clause :
      (k : Clause) (c : Ctx) (fuel : ℕ) (rest : List (List ℕ))
      → parse_words inet (suc fuel) c (words_of k ++ rest) ≡ parse_words inet fuel (apply k c) rest
  unfolding parse_words round takes keyword
  round-clause only_tcp c fuel rest = refl
  round-clause only_udp c fuel rest = refl
  round-clause only_icmp c fuel rest = refl
  round-clause (either_port a) c fuel rest = refl
  round-clause (src_port a) c fuel rest = refl
  round-clause (dst_port a) c fuel rest = refl
  round-clause (src_host a) c fuel rest = refl
  round-clause (dst_host a) c fuel rest = refl
  round-clause (both_hosts a) c fuel rest = refl

  parse_words-clauses :
      (fuel : ℕ) (ks : List Clause) (c : Ctx)
      → length ks ≤ fuel
      → parse_words inet fuel c (all_words ks) ≡ some (success, apply_all ks c)
  parse_words-clauses fuel [] c h = unfold parse_words in refl
  parse_words-clauses zero (k ∷ ks) c h = absurd (omega arith)
  parse_words-clauses (suc fuel) (k ∷ ks) c h =
      round-clause k c fuel (all_words ks) ∙ parse_words-clauses fuel ks (apply k c) (omega arith)

length-words_of : (k : Clause) → 0 < length (words_of k)
length-words_of k = ground arith

length-all_words : (ks : List Clause) → length ks ≤ length (all_words ks)
length-all_words [] = omega arith
length-all_words (k ∷ ks) =
    omega (arith, length-append (words_of k) (all_words ks), length-words_of k, length-all_words ks)

All-append : (vs ws : List (List ℕ)) → All IsWord vs → All IsWord ws → All IsWord (vs ++ ws)
All-append [] ws hv hw = hw
All-append (v ∷ vs) ws hv hw = (hv.0, All-append vs ws hv.1 hw)

words_of-IsWord : (k : Clause) → IsClause k → All IsWord (words_of k)
words_of-IsWord only_tcp h = ground arith
words_of-IsWord only_udp h = ground arith
words_of-IsWord only_icmp h = ground arith
words_of-IsWord (either_port a) h = ground arith
words_of-IsWord (src_port a) h = ground arith
words_of-IsWord (dst_port a) h = ground arith
words_of-IsWord (src_host a) h = ground arith
words_of-IsWord (dst_host a) h = ground arith
words_of-IsWord (both_hosts a) h = ground arith

all_words-IsWord : (ks : List Clause) → All IsClause ks → All IsWord (all_words ks)
all_words-IsWord [] h = tt
all_words-IsWord (k ∷ ks) h =
    All-append (words_of k) (all_words ks) (words_of-IsWord k h.0) (all_words-IsWord ks h.1)

-- A text of at most 255 characters that puts clauses together, one space between two words, is parsed
-- with success, and its clauses act on the context in their order.
pub parse-text :
    (inet : List ℕ → ℕ) (ks : List Clause) (c : Ctx)
    → All IsClause ks
    → length (text ks) ≤ 255
    → parse inet c (text ks) ≡ some (success, apply_all inet ks c)
unfolding parse
parse-text inet ks c h fits =
    rw (take_all (text ks) 255 fits, words_from-join (all_words ks) (all_words-IsWord ks h))
      (parse_words-clauses inet (length (all_words ks)) ks c (length-all_words ks))
