-- ===== src/Output/Session.antt =====
-- A run of src/output.c from `output_init` to `output_close`.
use pktsnare.Common.{
  ℕ, ◌≡◌, refl, sym, ap, ◌∙◌, Bool, true, false, Option, none, some, List, [], ◌∷◌, ◌++◌, arith,
}
use mathlib.Core.List.{append-nil, append_assoc}
use pktsnare.Promisc.{close, close-cons}
use pktsnare.Output.{Format, Sink, stdout, file, State, init, end_, set_format, line, write}

-- What a program calls in between
pub data Call (P : Type 0) : Type 0 where
  writes : P → Call P
  formats : Format → Call P

-- Where the output goes
abbrev pub sink : Bool → Option ℕ → Sink
sink false got = stdout
sink true none = stdout
sink true (some fd) = file fd

module _ {P : Type 0} (print_text print_json : P → List ℕ) where
  abbrev pub run : List (Call P) → State → State
  run [] s = s
  run (writes p ∷ cs) s = run cs (write print_text print_json (some p) s)
  run (formats f ∷ cs) s = run cs (set_format f s)

  -- The lines of the packets, each in the format of its time
  abbrev pub lines : Sink → Format → List (Call P) → List (Sink × List ℕ)
  lines to f [] = []
  lines to f (writes p ∷ cs) = (to, line print_text print_json f p) ∷ lines to f cs
  lines to f (formats g ∷ cs) = lines to g cs

  record Ran (to : Sink) (s : State) (cs : List (Call P)) (s' : State) : Type 0 where
    goes : s'.out ≡ some to
    kept : s'.opened ≡ s.opened
    all : s'.written ≡ s.written ++ lines to s.format cs

  write-some :
      (p : P) (s : State) (to : Sink)
      → s.out ≡ some to
      → write print_text print_json (some p) s
        ≡ record s { written = s.written ++ ((to, line print_text print_json s.format p) ∷ []) }
  unfolding write
  write-some p s to e = ground arith

  run-Ran : (to : Sink) (cs : List (Call P)) (s : State) → s.out ≡ some to → Ran to s cs (run cs s)
  run-Ran to [] s e = record { goes = e; kept = refl; all = sym (append-nil s.written) }
  run-Ran to (formats f ∷ cs) s e =
      let r = run-Ran to cs (set_format f s) e in
      record { goes = r.goes; kept = r.kept; all = r.all }
  run-Ran to (writes p ∷ cs) s e = rw (write-some p s to e) (
      let r =
        run-Ran to cs
          (record s { written = s.written ++ ((to, line print_text print_json s.format p) ∷ []) })
          e in
      record {
        goes = r.goes;
        kept = r.kept;
        all =
            r.all
            ∙ append_assoc s.written ((to, line print_text print_json s.format p) ∷ [])
                (lines to s.format cs);
      })

  end-file :
      (fd : ℕ) (before : List ℕ) (s : State)
      → s.out ≡ some (file fd)
      → s.opened ≡ fd ∷ before
      → (end_ s).opened ≡ before
  unfolding end_
  end-file fd before s e h = rw (e, end_) (ap (close fd) h ∙ close-cons fd before)

  end-stdout : (s : State) → s.out ≡ some stdout → end_ s ≡ s
  unfolding end_
  end-stdout s e = ground arith

  -- From `output_init` of src/output.c on, with or without a path and whether the file can be opened
  -- or not, any calls of `output_write` with a packet and of `output_set_format`, and then
  -- `output_close`: each packet has been written behind what was there, in the order of the calls and
  -- in the format of its time, to the file, or to stdout where there is none, and exactly the files
  -- are open that were before.
  pub end-init :
      (f : Format) (path : Bool) (got : Option ℕ) (cs : List (Call P)) (s : State)
      → let s' = run cs (init f path got s) in
        (s'.written ≡ s.written ++ lines (sink path got) f cs) × ((end_ s').opened ≡ s.opened)
  unfolding init
  end-init f false got cs s =
      let r = run-Ran stdout cs (init f false got s) refl in
      (r.all, ap (λ (x : State). x.opened) (end-stdout _ r.goes) ∙ r.kept)
  end-init f true none cs s =
      let r = run-Ran stdout cs (init f true none s) refl in
      (r.all, ap (λ (x : State). x.opened) (end-stdout _ r.goes) ∙ r.kept)
  end-init f true (some fd) cs s =
      let r = run-Ran (file fd) cs (init f true (some fd) s) refl in
      (r.all, end-file fd s.opened _ r.goes r.kept)
