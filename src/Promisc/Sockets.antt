-- ===== src/Promisc/Sockets.antt =====
-- The descriptors that src/promisc.c opens, and the flags that it leaves behind.
use pktsnare.Common.{
  ℕ, ◌≡◌, refl, ap, ◌∙◌, Bool, true, false, not, Option, none, some, List, ◌∷◌, arith,
  if◌then◌else◌,
}
use pktsnare.Common.Int.{ℤ}
use pktsnare.Promisc.{
  World, Ctx, init, query, close, close-cons, enable, disable, turn, get_flags, set_flags, free,
}
use pktsnare.Promisc.Steps.{Step, Reach, enables, disables, frees, others, here, then_}

-- The program holds what it held before, and the descriptor of the context, if it has one.
abbrev held : List ℕ → Option ℕ → List ℕ
held before none = before
held before (some fd) = fd ∷ before

abbrev Owns : List ℕ → Ctx × World → Type 0
Owns before s = s.1.opened ≡ held before s.0.sockfd

query-opened : (w : World) (sock : Option ℕ) (ok : Bool) → (query w sock ok).1 ≡ w
unfolding query
query-opened w none ok = refl
query-opened w (some fd) ok =
    ap (λ (xs : List ℕ). record w { opened = xs }) (close-cons fd w.opened)

init-Owns :
    (w : World) (sock sock' : Option ℕ) (ok : Bool)
    → Owns w.opened ((init w sock sock' ok).1, (init w sock sock' ok).2)
unfolding init query
init-Owns w none sock' ok = refl
init-Owns w (some fd) none ok = close-cons fd w.opened
init-Owns w (some fd) (some fd') true = close-cons fd' (fd ∷ w.opened)
init-Owns w (some fd) (some fd') false =
    ap (close fd) (close-cons fd' (fd ∷ w.opened)) ∙ close-cons fd w.opened

turn-Owns :
    (before : List ℕ) (on : Bool) (c : Ctx) (w : World) (got ok : Bool)
    → Owns before (c, w)
    → Owns before ((turn on c w got ok).1, (turn on c w got ok).2)
unfolding turn get_flags set_flags
turn-Owns before on c w got ok a = ground (arith, a)

if-Owns :
    (before : List ℕ) (b : Bool) (x y : ℤ × Ctx × World)
    → Owns before (x.1, x.2)
    → Owns before (y.1, y.2)
    → Owns before ((if b then x else y).1, (if b then x else y).2)
if-Owns before true x y h k = h
if-Owns before false x y h k = k

free-Owns : (before : List ℕ) (c : Ctx) (w : World) → Owns before (c, w) → Owns before (free c w)
unfolding free
free-Owns before c w a = free-held (c.sockfd) refl
  where
    free-held : (o : Option ℕ) → c.sockfd ≡ o → Owns before (free c w)
    free-held none e = rw (e, free) a
    free-held (some fd) e =
        rw (e, free) (ap (close fd) (a ∙ ap (held before) e) ∙ close-cons fd before)

Step-Owns : (before : List ℕ) {s s' : Ctx × World} → Step s s' → Owns before s → Owns before s'
unfolding enable disable
Step-Owns before (enables c w got ok) a =
    if-Owns before c.enabled _ _ a (turn-Owns before true c w got ok a)
Step-Owns before (disables c w got ok) a =
    if-Owns before (not c.enabled) _ _ a
      (if-Owns before c.was_promisc _ _ a (turn-Owns before false c w got ok a))
Step-Owns before (frees c w) a = free-Owns before c w a
Step-Owns before (others c w n) a = a

Reach-Owns : (before : List ℕ) {s s' : Ctx × World} → Reach s s' → Owns before s → Owns before s'
Reach-Owns before (here s) a = a
Reach-Owns before (then_ s s' s'' st r) a = Reach-Owns before r (Step-Owns before st a)

free-sockfd : (c : Ctx) (w : World) → (free c w).0.sockfd ≡ none
unfolding free
free-sockfd c w = ground arith

free-closed :
    (before : List ℕ) (c : Ctx) (w : World) → Owns before (c, w) → (free c w).1.opened ≡ before
free-closed before c w a = free-Owns before c w a ∙ ap (held before) (free-sockfd c w)

-- After `promisc_init` of src/promisc.c, whether it succeeds or not, and any calls of
-- `promisc_enable`, `promisc_disable` and `promisc_free`, whatever the kernel answers to each of them:
-- `promisc_free` leaves exactly the descriptors open that were open before.
pub free-Reach :
    (w : World) (sock sock' : Option ℕ) (ok : Bool) {s : Ctx × World}
    → Reach ((init w sock sock' ok).1, (init w sock sock' ok).2) s
    → (free s.0 s.1).1.opened ≡ w.opened
free-Reach w sock sock' ok {s = s} r =
    free-closed w.opened s.0 s.1 (Reach-Owns w.opened r (init-Owns w sock sock' ok))
