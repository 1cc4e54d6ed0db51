-- ===== src/Promisc/Steps.antt =====
-- What holds of src/promisc.c after any calls, whatever the kernel answers.
use pktsnare.Common.{
  ℕ, ◌≡◌, refl, ◌≢◌, Bool, true, false, not, Option, none, some, arith, if◌then◌else◌,
}
use pktsnare.Common.Int.{ℤ, success}
use pktsnare.Promisc.{World, Ctx, init, query, enable, disable, turn, get_flags, set_flags, free}

-- A call, with the answers of the kernel, or a change of the interface's other flags by someone else
pub data Step : Ctx × World → Ctx × World → Type 0 where
  enables :
      (c : Ctx) (w : World) (got ok : Bool)
      → Step (c, w) ((enable c w got ok).1, (enable c w got ok).2)
  disables :
      (c : Ctx) (w : World) (got ok : Bool)
      → Step (c, w) ((disable c w got ok).1, (disable c w got ok).2)
  frees : (c : Ctx) (w : World) → Step (c, w) (free c w)
  others :
      (c : Ctx) (w : World) (n : ℕ)
      → Step (c, w) (c, record w { flags = record w.flags { rest = n } })

pub data Reach : Ctx × World → Ctx × World → Type 0 where
  here : (s : Ctx × World) → Reach s s
  then_ : (s s' s'' : Ctx × World) → Step s s' → Reach s' s'' → Reach s s''

-- The context tells the truth about the kernel, and about the time before.
pub record Agrees (before : Bool) (s : Ctx × World) : Type 0 where
  pub now : s.0.enabled ≡ s.1.flags.promisc
  pub past : s.0.was_promisc ≡ before
  pub kept : before ≡ true → s.0.enabled ≡ true

turn-Agrees :
    (before on : Bool) (c : Ctx) (w : World) (got ok : Bool)
    → Agrees before (c, w)
    → (before ≡ true → on ≡ true)
    → Agrees before ((turn on c w got ok).1, (turn on c w got ok).2)
unfolding turn get_flags set_flags
turn-Agrees before on c w got ok a h = record {
  now = ground (arith, a.now);
  past = ground (arith, a.past);
  kept = λ e. ground (arith, a.kept e, h e);
}

if-Agrees :
    (before b : Bool) (x y : ℤ × Ctx × World)
    → (b ≡ true → Agrees before (x.1, x.2))
    → (b ≡ false → Agrees before (y.1, y.2))
    → Agrees before ((if b then x else y).1, (if b then x else y).2)
if-Agrees before true x y h k = h refl
if-Agrees before false x y h k = k refl

Step-Agrees : (before : Bool) {s s' : Ctx × World} → Step s s' → Agrees before s → Agrees before s'
unfolding enable disable free
Step-Agrees before (enables c w got ok) a =
    if-Agrees before c.enabled _ _ (λ on. a)
      (λ off. turn-Agrees before true c w got ok a (λ e. refl))
Step-Agrees before (disables c w got ok) a =
    if-Agrees before (not c.enabled) _ _ (λ off. a)
      (λ on.
        if-Agrees before c.was_promisc _ _ (λ past. a)
          (λ fresh. turn-Agrees before false c w got ok a (λ e. cc (a.past, e, fresh))))
Step-Agrees before (frees c w) a = record {
  now = ground (arith, a.now);
  past = ground (arith, a.past);
  kept = λ e. ground (arith, a.kept e);
}
Step-Agrees before (others c w n) a = record { now = a.now; past = a.past; kept = a.kept }

pub Reach-Agrees :
    (before : Bool) {s s' : Ctx × World} → Reach s s' → Agrees before s → Agrees before s'
Reach-Agrees before (here s) a = a
Reach-Agrees before (then_ s s' s'' st r) a = Reach-Agrees before r (Step-Agrees before st a)

init-Agrees :
    (w : World) (sock sock' : Option ℕ) (ok : Bool)
    → (init w sock sock' ok).0 ≡ success
    → Agrees w.flags.promisc ((init w sock sock' ok).1, (init w sock sock' ok).2)
unfolding init query
init-Agrees w none sock' ok e = ground arith
init-Agrees w (some fd) none ok e = ground arith
init-Agrees w (some fd) (some fd') false e = ground arith
init-Agrees w (some fd) (some fd') true e = record { now = refl; past = refl; kept = λ h. h }

-- After a `promisc_init` of src/promisc.c that succeeds and any calls of the other functions, whatever
-- the kernel answers to each of them, and any changes of the interface's other flags by others:
-- `enabled` is the mode that the interface has, `was_promisc` is the mode that it had before, and an
-- interface that was in promiscuous mode still is.
pub Reach-init :
    (w : World) (sock sock' : Option ℕ) (ok : Bool) {s : Ctx × World}
    → (init w sock sock' ok).0 ≡ success
    → Reach ((init w sock sock' ok).1, (init w sock sock' ok).2) s
    → Agrees w.flags.promisc s
Reach-init w sock sock' ok e r = Reach-Agrees w.flags.promisc r (init-Agrees w sock sock' ok e)

disable-Agrees :
    (before : Bool) (c : Ctx) (w : World)
    → Agrees before (c, w)
    → c.sockfd ≢ none
    → ((disable c w true true).0 ≡ success)
      × ((disable c w true true).2.flags ≡ record w.flags { promisc = before })
unfolding disable turn get_flags set_flags
disable-Agrees before c w a h = (ground (arith, h), ground (arith, h, a.now, a.past, a.kept))

-- After a `promisc_init` of src/promisc.c that succeeds and any calls of the other functions, whatever
-- the kernel answers to them, as long as the descriptor has not been closed: a `promisc_disable` to
-- which the kernel gives no error succeeds and gives the interface the mode from before
-- `promisc_init`, its other flags unchanged.
pub disable-Reach :
    (w : World) (sock sock' : Option ℕ) (ok : Bool) {s : Ctx × World}
    → (init w sock sock' ok).0 ≡ success
    → Reach ((init w sock sock' ok).1, (init w sock sock' ok).2) s
    → s.0.sockfd ≢ none
    → ((disable s.0 s.1 true true).0 ≡ success)
      × ((disable s.0 s.1 true true).2.flags ≡ record s.1.flags { promisc = w.flags.promisc })
disable-Reach w sock sock' ok {s = s} e r h =
    disable-Agrees w.flags.promisc s.0 s.1 (Reach-init w sock sock' ok e r) h
