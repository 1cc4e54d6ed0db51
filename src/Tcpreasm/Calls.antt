-- ===== src/Tcpreasm/Calls.antt =====
-- What expiry leaves of the stream table of src/tcpreasm.c, after any calls.
use pktsnare.Common.{ℕ, ◌+◌, ◌%◌, ◌^◌, ◌≤◌, ◌<◌, ◌≡◌, ap, ◌∙◌, Bool, List, [], ◌∷◌, arith}
use pktsnare.Common.Filter.{count_if}
use pktsnare.Tcpreasm.{Ctx, Flow, init, get_stream, add_segment, expire}
use pktsnare.Tcpreasm.Streams.{
  IsValid, in_use, init-IsValid, get_stream-IsValid, add_segment-IsValid, expire-streams,
  expire_all,
}

-- The calls that change the context, with their arguments and what `malloc` says
pub data Call : Type 0 where
  lookup : Flow → Call
  segment : (i seq : ℕ) (bytes : List ℕ) (len : ℕ) (allocated : Bool) → Call
  expiry : (now : ℕ) → Call

abbrev pub call : Ctx → Call → Ctx
call c (lookup f) = (get_stream c f).1
call c (segment i seq bytes len allocated) = (add_segment c i seq bytes len allocated).1
call c (expiry now) = expire c now

abbrev pub run : Ctx → List Call → Ctx
run c [] = c
run c (x ∷ later) = run (call c x) later

abbrev IsReached : Ctx → Type 0
IsReached c = IsValid c × (c.expired < 2 ^ 64)

expired-get_stream : (c : Ctx) (f : Flow) → (get_stream c f).1.expired ≡ c.expired
unfolding get_stream
expired-get_stream c f = ground arith

expired-add_segment :
    (c : Ctx) (i seq : ℕ) (bytes : List ℕ) (len : ℕ) (allocated : Bool)
    → (add_segment c i seq bytes len allocated).1.expired ≡ c.expired
unfolding add_segment
expired-add_segment c i seq bytes len allocated = ground arith

call-IsReached : (c : Ctx) (x : Call) → IsReached c → IsReached (call c x)
call-IsReached c (lookup f) r =
    (get_stream-IsValid c f r.0, omega (arith, r.1, expired-get_stream c f))
call-IsReached c (segment i seq bytes len allocated) r = (
  add_segment-IsValid c i seq bytes len allocated r.0,
  omega (arith, r.1, expired-add_segment c i seq bytes len allocated),
)
call-IsReached c (expiry now) r = let e = expire-streams now c r.0 r.1 in (e.0, omega (arith, e.2))

run-IsReached : (c : Ctx) (calls : List Call) → IsReached c → IsReached (run c calls)
run-IsReached c [] r = r
run-IsReached c (x ∷ later) r = run-IsReached (call c x) later (call-IsReached c x r)

init-IsReached : IsReached init
unfolding init
init-IsReached = (init-IsValid, omega arith)

-- After any lookups, segments and expiries from an initialised context, whatever they carry and
-- whether or not memory could be had, and with no stream freed by the caller itself, an expiry with
-- the 32-bit clock at 30 or later leaves no stream in use, sets the counter of streams to 0, and adds
-- the number of streams that were in use to the counter of expired ones, modulo 2^64.
pub expire-run :
    (calls : List Call) (now : ℕ)
    → 30 ≤ now
    → now < 2 ^ 32
    → let c = run init calls in
      let c' = expire c now in
      (count_if in_use c'.streams ≡ 0)
      × (c'.stream_count ≡ 0)
      × (c'.expired ≡ (c.expired + count_if in_use c.streams) % 2 ^ 64)
expire-run calls now lo hi =
    let r = run-IsReached init calls init-IsReached in
    let e = expire_all now (run init calls) r.0 r.1 lo hi in
    (e.0, e.1, e.2 ∙ ap (λ n. ((run init calls).expired + n) % 2 ^ 64) (r.0.counted))
