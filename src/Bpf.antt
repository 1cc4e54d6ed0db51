-- ===== src/Bpf.antt =====
-- src/bpf_wrap.c: filters that libpcap compiles and runs. Its functions are arguments:
-- `compile_nopcap` gives the program for a snapshot length and an expression, or none, and
-- `bpf_filter` says for a program, a packet and two lengths how many bytes to keep. A text is its
-- characters, without the NUL; the buffer for errors is one text.
mod Tests
pub mod Handles
use pktsnare.Common.{
  ℕ, zero, suc, ◌+◌, ◌-◌, ◌*◌, ◌/◌, ◌%◌, ◌^◌, ◌≤◌, ◌<◌, ◌≡◌, refl, sym, ap, ap₂, subst, ◌∙◌, ◌≢◌,
  ◌↔◌, ◌⊎◌, inl, inr, Bool, true, false, not, ◌&&◌, ◌||◌, Option, none, some, List, [], ◌∷◌, ◌++◌,
  map, Perm, arith, min, ℕ_discrete, ltb, leb, ◌==◌, if◌then◌else◌, ==_iff, ==_refl, Bool-cases,
  Option-cases, length, get_elem?, get_or, set, modify, take, drop, replicate, All, length-append,
  length-set, length-modify, length-replicate, length-take, get_elem?-eq-get_or, get_elem?-none,
  get_elem?-some, get_elem?-set_self, get_elem?-set_ne, modify-set, modify-eq-set, take-set,
  take-set_end, take-suc, take_all, take-take_append, All-get_elem?, All-set, All-of_get_elem?,
  All-replicate, add8, add16, add32, add64, sub32, sub64, bit_and, bit_or, bit_xor,
}
use pktsnare.Common.Int.{ℤ, pos, negsuc, leb_ℤ, success, failure}
use pktsnare.Common.Text.{codes}

abbrev pub expr_max : ℕ
expr_max = 256

-- `struct bpf_wrap`
pub record Handle (Prog : Type 0) : Type 0 where
  pub expr : List ℕ
  pub prog : Prog
  pub snaplen : ℤ
  pub compiled : Bool

-- `snprintf(bpf_errbuf, sizeof(bpf_errbuf), …)`
abbrev pub errbuf : List ℕ → List ℕ
errbuf s = take 255 s

module _ {Prog : Type 0} where
  -- The handle, if there is one, and the buffer for errors; `allocated` is whether `calloc` succeeds.
  unfoldable pub compile :
      (ℤ → List ℕ → Option Prog)
      → Option (List ℕ)
      → ℤ
      → Bool
      → List ℕ
      → Option (Handle Prog) × List ℕ
  compile compile_nopcap none snaplen allocated err = (none, errbuf (codes "invalid arguments"))
  compile compile_nopcap (some expr) snaplen allocated err =
      if leb_ℤ snaplen (pos 0)
      then (none, errbuf (codes "invalid arguments"))
      else if leb expr_max (length expr)
      then (none, errbuf (codes "filter expression too long (max 255)"))
      else if not allocated
      then (none, errbuf (codes "out of memory"))
      else elim (compile_nopcap snaplen expr) [
        | none ↦ (none, errbuf (codes "compile failed: " ++ expr))
        | some prog ↦ (
          some record {
            expr = take (expr_max - 1) expr;
            prog = prog;
            snaplen = snaplen;
            compiled = true;
          },
          err,
        )
      ]

  -- The result 1, 0 or -1
  unfoldable pub match_ :
      (Prog → List ℕ → ℕ → ℕ → ℕ) → Option (Handle Prog) → Option (List ℕ) → ℕ → List ℕ → ℤ × List ℕ
  match_ bpf_filter none pkt pktlen err = (failure, errbuf (codes "invalid handle or packet"))
  match_ bpf_filter (some h) none pktlen err = (failure, errbuf (codes "invalid handle or packet"))
  match_ bpf_filter (some h) (some pkt) pktlen err =
      if not h.compiled then (failure, errbuf (codes "invalid handle or packet")) else (
        if ltb 0 (bpf_filter h.prog pkt (pktlen % 2 ^ 32) (pktlen % 2 ^ 32)) then pos 1 else pos 0,
        err,
      )

  abbrev pub expr_of : Option (Handle Prog) → List ℕ
  expr_of none = []
  expr_of (some h) = h.expr
