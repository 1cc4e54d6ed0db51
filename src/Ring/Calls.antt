-- ===== src/Ring/Calls.antt =====
-- A client's calls of `ring_push` and `ring_pop` in order, with what each returns, and the same calls
-- of the queue.
use mathlib.Core.Option
use pktsnare.Common.{
  ℕ, ◌≤◌, ◌≡◌, refl, ap, ap₂, subst, true, Bool-cases, inl, inr, List, [], ◌∷◌, Option, none, arith,
  length, All, take, ltb, ◌==◌, ◌||◌, if◌then◌else◌,
}
use pktsnare.Common.Int.{ℤ, pos, success, failure}
use pktsnare.Ring.{Ring, max_pkt_size, push, pop}
use pktsnare.Ring.Invariant.{IsValid, push-IsValid, pop-IsValid}
use pktsnare.Ring.Refines.{packet, view, length-held, push_refines, pop_refines}
use pktsnare.Ring.Queue
use pktsnare.Ring.Queue.{Queue, Packet}

pub data Call : Type 0 where
  pushes : List ℕ → ℕ → ℕ → Call
  pops : Call

abbrev pub Reply : Type 0
Reply = ℤ × Option Packet

-- The buffer that a caller hands over holds the `len` bytes that it claims.
abbrev pub Holds : Call → Type 0
Holds (pushes bytes len ts) = len ≤ length bytes
Holds pops = Unit

unfoldable pub step : Ring → Call → Reply × Ring
step r (pushes bytes len ts) = let (status, r') = push r bytes len ts in ((status, none), r')
step r pops = let (status, out, r') = pop r in ((status, Option.map packet out), r')

unfoldable pub run : Ring → List Call → List Reply × Ring
unfolding step
run r [] = ([], r)
run r (c ∷ cs) =
    let (reply, r') = step r c in let (replies, last) = run r' cs in (reply ∷ replies, last)

-- The queue refuses a packet of no bytes or of more than 2048, and says so.
spec_step : ℕ → Queue → Call → Reply × Queue
spec_step cap q (pushes bytes len ts) =
    if len == 0 || ltb max_pkt_size len
    then ((failure, none), q)
    else ((success, none), Queue.push cap q (take len bytes, ts))
spec_step cap q pops =
    ((if length q.held == 0 then pos 1 else success, (Queue.pop q).0), (Queue.pop q).1)

pub spec_run : ℕ → Queue → List Call → List Reply × Queue
unfolding spec_step
spec_run cap q [] = ([], q)
spec_run cap q (c ∷ cs) =
    let (reply, q') = spec_step cap q c in
    let (replies, last) = spec_run cap q' cs in (reply ∷ replies, last)

capacity-push :
    (r : Ring) (bytes : List ℕ) (len ts : ℕ) → (push r bytes len ts).1.capacity ≡ r.capacity
unfolding push
capacity-push r bytes len ts = ground arith

capacity-pop : (r : Ring) → (pop r).2.capacity ≡ r.capacity
unfolding pop
capacity-pop r = ground arith

push_refused :
    (r : Ring) (bytes : List ℕ) (len ts : ℕ)
    → (len == 0 || ltb max_pkt_size len) ≡ true
    → push r bytes len ts ≡ (failure, r)
unfolding push
push_refused r bytes len ts e = rw e

step-IsValid : {r : Ring} (c : Call) → IsValid r → IsValid (step r c).1
unfolding step
step-IsValid (pushes bytes len ts) v = push-IsValid bytes len ts v
step-IsValid pops v = pop-IsValid v

capacity-step : (r : Ring) (c : Call) → (step r c).1.capacity ≡ r.capacity
unfolding step
capacity-step r (pushes bytes len ts) = capacity-push r bytes len ts
capacity-step r pops = capacity-pop r

step_refines :
    {r : Ring} (c : Call)
    → IsValid r
    → Holds c
    → let (reply, r') = step r c in (reply, view r') ≡ spec_step r.capacity (view r) c
unfolding step spec_step
step_refines {r} (pushes bytes len ts) v h = elim (Bool-cases (len == 0 || ltb max_pkt_size len)) [
  | inl bad ↦ rw (bad, push_refused r bytes len ts bad)
  | inr good ↦
      let p = push_refines bytes len ts v (ground arith) (ground arith) h in
      rw good (ap₂ (λ s q. ((s, none), q)) p.0 p.1)
]
step_refines {r} pops v h =
    let p = pop_refines v in rw (length-held r) (ap₂ (λ s x. ((s, x.0), x.1)) p.0 p.1)

-- Where each buffer that is pushed holds the bytes it claims, no sequence of calls tells a valid
-- ring from the queue of its packets: the replies agree, and what is left agrees, the number of
-- packets lost included.
pub run_refines :
    (cs : List Call) {r : Ring}
    → IsValid r
    → All Holds cs
    → let (replies, last) = run r cs in (replies, view last) ≡ spec_run r.capacity (view r) cs
unfolding run spec_run
run_refines [] v h = refl
run_refines (c ∷ cs) {r} v h =
    let r' = (step r c).1 in
    let rest =
      subst (λ k. ((run r' cs).0, view (run r' cs).1) ≡ spec_run k (view r') cs) (capacity-step r c)
        (run_refines cs (step-IsValid c v) h.1) in
    rw (← step_refines c v h.0) (ap (λ x. ((step r c).0 ∷ x.0, x.1)) rest)
