-- ===== src/Filter.antt =====
-- src/filter.c: filters on packets, from a text of words. src/filter.h declares no `struct
-- filter_ctx`, no `FILTER_FLAG_` constant and no `struct dissected_pkt`, so the records are the ones
-- that the code of src/filter.c reads and writes, and each flag is a Bool of its own. The context, the
-- text and the packet are there (no NULL). `inet_addr` is the argument `inet`, and a text is its
-- characters.
pub mod Words
pub mod Parse
pub mod Match
mod Tests
use pktsnare.Common.{
  ℕ, zero, suc, ◌+◌, ◌-◌, ◌*◌, ◌/◌, ◌%◌, ◌^◌, ◌≤◌, ◌<◌, ◌≡◌, refl, sym, ap, ap₂, subst, ◌∙◌, ◌≢◌,
  ◌↔◌, ◌⊎◌, inl, inr, Bool, true, false, not, ◌&&◌, ◌||◌, Option, none, some, List, [], ◌∷◌, ◌++◌,
  map, Perm, arith, min, ℕ_discrete, ltb, leb, ◌==◌, if◌then◌else◌, ==_iff, ==_refl, Bool-cases,
  Option-cases, length, get_elem?, get_or, set, modify, take, drop, replicate, All, length-append,
  length-set, length-modify, length-replicate, length-take, get_elem?-eq-get_or, get_elem?-none,
  get_elem?-some, get_elem?-set_self, get_elem?-set_ne, modify-set, modify-eq-set, take-set,
  take-set_end, take-suc, take_all, take-take_append, All-get_elem?, All-set, All-of_get_elem?,
  All-replicate, add8, add16, add32, add64, sub32, sub64, bit_and, bit_or, bit_xor,
}
use pktsnare.Common.Int.{ℤ, success, failure}
use pktsnare.Common.Text.{codes, same, atoi, to_u16}

-- `filter_proto_t`
pub data Proto : Type 0 where
  any tcp udp icmp : Proto

abbrev pub proto_eq : Proto → Proto → Bool
proto_eq any any = true
proto_eq tcp tcp = true
proto_eq udp udp = true
proto_eq icmp icmp = true
proto_eq _ _ = false

-- `struct filter_ctx`; the five flags have the names of their constants.
pub record Ctx : Type 0 where
  pub proto : Proto
  pub src_ip : ℕ
  pub dst_ip : ℕ
  pub src_port : ℕ
  pub dst_port : ℕ
  pub flag_port : Bool
  pub flag_src_port : Bool
  pub flag_dst_port : Bool
  pub flag_src_host : Bool
  pub flag_dst_host : Bool

-- What the filter reads of `struct dissected_pkt`
pub record Packet : Type 0 where
  pub proto : Proto
  pub src_ip : ℕ
  pub dst_ip : ℕ
  pub src_port : ℕ
  pub dst_port : ℕ

abbrev pub init : Ctx
init = record {
  proto = any;
  src_ip = 0;
  dst_ip = 0;
  src_port = 0;
  dst_port = 0;
  flag_port = false;
  flag_src_port = false;
  flag_dst_port = false;
  flag_src_host = false;
  flag_dst_host = false;
}

abbrev pub is_blank : ℕ → Bool
is_blank c = c == 32 || c == 9

-- The words that the calls of `strtok(…, " \t")` return, one after the other; `word` is the part of a
-- word that has been read.
unfoldable pub words_from : List ℕ → List ℕ → List (List ℕ)
words_from [] [] = []
words_from (d ∷ word) [] = (d ∷ word) ∷ []
words_from [] (c ∷ s) = words_from (if is_blank c then [] else c ∷ []) s
words_from (d ∷ word) (c ∷ s) =
    let ends = (d ∷ word) ∷ words_from [] s in
    let goes = words_from (d ∷ (word ++ c ∷ [])) s in if is_blank c then ends else goes

-- What a word says to the parser, by the comparisons of `filter_parse`
pub data Keyword : Type 0 where
  tcp udp icmp port src dst host other : Keyword

unfoldable pub keyword : List ℕ → Keyword
keyword w =
    if same w (codes "tcp")
    then Keyword.tcp
    else if same w (codes "udp")
    then Keyword.udp
    else if same w (codes "icmp")
    then Keyword.icmp
    else if same w (codes "port")
    then port
    else if same w (codes "src")
    then src
    else if same w (codes "dst")
    then dst
    else if same w (codes "host")
    then host
    else other

-- `(uint16_t)atoi(tok)`
abbrev pub port_of : List ℕ → ℕ
port_of w = to_u16 (atoi w)

-- The next word is an argument.
unfoldable pub takes : (List ℕ → Ctx → Ctx) → Ctx → List (List ℕ) → Option (Ctx × List (List ℕ))
takes f c [] = none
takes f c (a ∷ rest) = some (f a c, rest)

abbrev pub with_port : List ℕ → Ctx → Ctx
with_port w c = record c { src_port = port_of w; dst_port = port_of w; flag_port = true }

abbrev pub with_src_port : List ℕ → Ctx → Ctx
with_src_port w c = record c { src_port = port_of w; flag_src_port = true }

abbrev pub with_dst_port : List ℕ → Ctx → Ctx
with_dst_port w c = record c { dst_port = port_of w; flag_dst_port = true }

module _ (inet : List ℕ → ℕ) where
  abbrev pub with_src_host : List ℕ → Ctx → Ctx
  with_src_host w c = record c { src_ip = inet w; flag_src_host = true }

  abbrev pub with_dst_host : List ℕ → Ctx → Ctx
  with_dst_host w c = record c { dst_ip = inet w; flag_dst_host = true }

  abbrev pub with_host : List ℕ → Ctx → Ctx
  with_host w c = record c {
    src_ip = inet w;
    dst_ip = inet w;
    flag_src_host = true;
    flag_dst_host = true;
  }

  -- A round of the loop: the word `w`, and what it takes of the words behind it. `none` is the return
  -- of -1 where an argument is missing.
  unfoldable pub round : Ctx → List ℕ → List (List ℕ) → Option (Ctx × List (List ℕ))
  unfolding takes
  round c w ws = elim (keyword w) [
    | Keyword.tcp ↦ some (record c { proto = Proto.tcp }, ws)
    | Keyword.udp ↦ some (record c { proto = Proto.udp }, ws)
    | Keyword.icmp ↦ some (record c { proto = Proto.icmp }, ws)
    | port ↦ takes with_port c ws
    | src ↦ elim ws [
      | [] ↦ none
      | v ∷ later ↦ elim (keyword v) [
        | port ↦ takes with_src_port c later
        | host ↦ takes with_src_host c later
        | _ ↦ some (c, later)
      ]
    ]
    | dst ↦ elim ws [
      | [] ↦ none
      | v ∷ later ↦ elim (keyword v) [
        | port ↦ takes with_dst_port c later
        | host ↦ takes with_dst_host c later
        | _ ↦ some (c, later)
      ]
    ]
    | host ↦ takes with_host c ws
    | other ↦ some (c, ws)
  ]

  -- The loop over the words, with fuel for its rounds; `none` means that the fuel ran out.
  unfoldable pub parse_words : ℕ → Ctx → List (List ℕ) → Option (ℤ × Ctx)
  parse_words fuel c [] = some (success, c)
  parse_words zero c (w ∷ ws) = none
  parse_words (suc fuel) c (w ∷ ws) = elim (round c w ws) [
    | none ↦ some (failure, c)
    | some (c', rest) ↦ parse_words fuel c' rest
  ]

  -- The copy of the text is cut to 255 characters. Every round takes a word at least, so that as many
  -- rounds as there are words are enough.
  unfoldable pub parse : Ctx → List ℕ → Option (ℤ × Ctx)
  parse c expr = let ws = words_from [] (take 255 expr) in parse_words (length ws) c ws

-- A flag is set, the value is not 0, and the packet's value is another
abbrev differs : Bool → ℕ → ℕ → Bool
differs flag value actual = flag && (not (value == 0) && not (value == actual))

unfoldable pub matches : Ctx → Packet → Bool
matches c p =
    if not (proto_eq c.proto any) && not (proto_eq c.proto p.proto)
    then false
    else if differs c.flag_src_host c.src_ip p.src_ip
    then false
    else if differs c.flag_dst_host c.dst_ip p.dst_ip
    then false
    else if c.flag_port && (not (p.src_port == c.src_port) && not (p.dst_port == c.dst_port))
    then false
    else if differs c.flag_src_port c.src_port p.src_port
    then false
    else if differs c.flag_dst_port c.dst_port p.dst_port
    then false
    else true
