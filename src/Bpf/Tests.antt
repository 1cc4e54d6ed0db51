-- ===== src/Bpf/Tests.antt =====
-- Runs of the model of src/bpf_wrap.c. A program is a length: it keeps what is longer.
use pktsnare.Common.{
  ℕ, ◌-◌, ◌≡◌, refl, true, Option, none, some, List, [], ◌∷◌, ◌==◌, if◌then◌else◌, length,
}
use pktsnare.Common.Int.{ℤ, pos}
use pktsnare.Common.Text.{codes}
use pktsnare.Bpf.{Handle, compile, match_}

abbrev by_length : ℤ → List ℕ → Option ℕ
by_length snaplen expr = if length expr == 0 then none else some (length expr)

abbrev keep_longer : ℕ → List ℕ → ℕ → ℕ → ℕ
keep_longer prog pkt wire caught = caught - prog

abbrev ip : Handle ℕ
ip = record { expr = codes "ip"; prog = 2; snaplen = pos 96; compiled = true }

compile_run :
    (compile by_length (some (codes "ip")) (pos 96) true [] ≡ (some ip, []))
    × (compile by_length (some []) (pos 96) true [] ≡ (none, codes "compile failed: "))
    × (match_ keep_longer (some ip) (some (1 ∷ 2 ∷ 3 ∷ [])) 3 [] ≡ (pos 1, []))
unfolding compile match_
compile_run = (refl, refl, refl)
