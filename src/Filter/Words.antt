-- ===== src/Filter/Words.antt =====
-- The words of a text, as `strtok` finds them.
use pktsnare.Common.{
  ℕ, ◌<◌, ◌≡◌, refl, sym, ap, ◌∙◌, false, List, [], ◌∷◌, ◌++◌, arith, if◌then◌else◌, length, All,
}
use mathlib.Core.List.{append-nil, append_assoc}
use pktsnare.Filter.{is_blank, words_from}

-- A word is not empty and has no blank.
abbrev pub IsWord : List ℕ → Type 0
IsWord w = (0 < length w) × All (λ c. is_blank c ≡ false) w

-- The words with one space between two.
abbrev pub join : List (List ℕ) → List ℕ
join [] = []
join (w ∷ []) = w
join (w ∷ v ∷ ws) = w ++ 32 ∷ join (v ∷ ws)

words_from-append :
    (d : ℕ) (word w s : List ℕ)
    → All (λ c. is_blank c ≡ false) w
    → words_from (d ∷ word) (w ++ s) ≡ words_from (d ∷ (word ++ w)) s
unfolding words_from
words_from-append d word [] s h = ap (λ x. words_from (d ∷ x) s) (sym (append-nil word))
words_from-append d word (c ∷ w) s h = rw (h.0) (
    words_from-append d (word ++ c ∷ []) w s h.1
    ∙ ap (λ x. words_from (d ∷ x) s) (append_assoc word (c ∷ []) w))

words_from-word : (w s : List ℕ) → IsWord w → words_from [] (w ++ s) ≡ words_from w s
unfolding words_from
words_from-word [] s h = absurd (omega (arith, h.0))
words_from-word (c ∷ w) s h =
    ap (λ b. words_from (if b then [] else c ∷ []) (w ++ s)) (h.1.0)
    ∙ words_from-append c [] w s h.1.1

words_from-space : (w s : List ℕ) → IsWord w → words_from w (32 ∷ s) ≡ w ∷ words_from [] s
unfolding words_from
words_from-space [] s h = absurd (omega (arith, h.0))
words_from-space (c ∷ w) s h = refl

words_from-end : (w : List ℕ) → IsWord w → words_from w [] ≡ w ∷ []
unfolding words_from
words_from-end [] h = absurd (omega (arith, h.0))
words_from-end (c ∷ w) h = refl

-- The words that are put together are found again.
pub words_from-join : (ws : List (List ℕ)) → All IsWord ws → words_from [] (join ws) ≡ ws
words_from-join [] h = unfold words_from in refl
words_from-join (w ∷ []) h =
    ap (words_from []) (sym (append-nil w)) ∙ words_from-word w [] h.0 ∙ words_from-end w h.0
words_from-join (w ∷ v ∷ ws) h =
    words_from-word w (32 ∷ join (v ∷ ws)) h.0
    ∙ words_from-space w (join (v ∷ ws)) h.0
    ∙ ap (◌∷◌ w) (words_from-join (v ∷ ws) h.1)
