-- ===== src/Bpf/Handles.antt =====
-- src/bpf_wrap.c from an expression to the packets that it lets pass.
use pktsnare.Common.{
  ℕ, ◌-◌, ◌%◌, ◌^◌, ◌≤◌, ◌<◌, ◌≡◌, refl, inl, inr, Bool, true, false, Option, none, some, List,
  ◌++◌, arith, ltb, leb, if◌then◌else◌, Bool-cases, Option-cases, length, take, length-take,
  take_all,
}
use pktsnare.Common.Int.{ℤ, pos, leb_ℤ}
use pktsnare.Common.Text.{codes}
use pktsnare.Bpf.{expr_max, Handle, errbuf, compile, match_, expr_of}

text_bound : (expr : List ℕ) → length (errbuf (codes "compile failed: " ++ expr)) ≤ 255
text_bound expr = omega (arith, length-take 255 (codes "compile failed: " ++ expr))

module _ {Prog : Type 0} (compile_nopcap : ℤ → List ℕ → Option Prog)
    (bpf_filter : Prog → List ℕ → ℕ → ℕ → ℕ) where
  -- The arguments that `bpf_wrap_compile` of src/bpf_wrap.c asks for, with memory for the handle and a
  -- program from libpcap: a handle comes back with the buffer for errors as it was, `bpf_wrap_expr`
  -- gives the whole expression, and `bpf_wrap_match` returns 1 exactly for the packets of which the
  -- program keeps some bytes, and 0 for the others.
  pub match-compile :
      (expr : List ℕ) (snaplen : ℤ) (err : List ℕ) (pkt : List ℕ) (prog : Prog)
      → leb_ℤ snaplen (pos 0) ≡ false
      → length expr < expr_max
      → length pkt < 2 ^ 32
      → compile_nopcap snaplen expr ≡ some prog
      → (h : Handle Prog) × (compile compile_nopcap (some expr) snaplen true err ≡ (some h, err))
        × (expr_of (some h) ≡ expr)
        × (match_ bpf_filter (some h) (some pkt) (length pkt) err
            ≡ (if ltb 0 (bpf_filter prog pkt (length pkt) (length pkt)) then pos 1 else pos 0, err))
  unfolding compile match_
  match-compile expr snaplen err pkt prog positive short small compiled = (
    record { expr = take (expr_max - 1) expr; prog = prog; snaplen = snaplen; compiled = true },
    ground (arith, compiled),
    take_all expr 255 (omega arith),
    (let same : length pkt % 2 ^ 32 ≡ length pkt = omega arith in rw same refl),
  )

  -- Where `bpf_wrap_compile` gives no handle, whatever the reason, the buffer for errors has a text of
  -- at least one and at most 255 characters that does not depend on what was in it.
  pub compile-none :
      (expr : Option (List ℕ)) (snaplen : ℤ) (allocated : Bool) (err err' : List ℕ)
      → (compile compile_nopcap expr snaplen allocated err).0 ≡ none
      → let out = (compile compile_nopcap expr snaplen allocated err).1 in
        (0 < length out)
        × (length out ≤ 255)
        × ((compile compile_nopcap expr snaplen allocated err') ≡ (none, out))
  unfolding compile
  compile-none none snaplen allocated err err' e = (omega arith, omega arith, refl)
  compile-none (some expr) snaplen allocated err err' e =
      elim (Bool-cases (leb_ℤ snaplen (pos 0))) [
        | inl bad ↦ rw bad (omega arith, omega arith, refl)
        | inr good ↦ rw good (elim (Bool-cases (leb expr_max (length expr))) [
          | inl long ↦ rw long (omega arith, omega arith, refl)
          | inr short ↦ rw short (elim (Bool-cases allocated) [
            | inr no_memory ↦ rw no_memory (omega arith, omega arith, refl)
            | inl memory ↦ rw memory (elim (Option-cases (compile_nopcap snaplen expr)) [
              | inl refused ↦ rw refused (omega arith, text_bound expr, refl)
              | inr (prog, compiled) ↦ absurd (ground (arith, e, compiled, good, short, memory))
            ])
          ])
        ])
      ]
