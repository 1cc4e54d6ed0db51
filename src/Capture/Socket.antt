-- ===== src/Capture/Socket.antt =====
-- The descriptor of src/capture.c, where `capture_open` succeeds and where it does not.
use pktsnare.Common.{
  ℕ, ◌≡◌, ◌≢◌, ◌↔◌, Bool, true, false, ◌&&◌, Option, none, some, List, ◌∷◌, arith,
}
use pktsnare.Common.Int.{success, failure}
use pktsnare.Promisc.{close-cons}
use pktsnare.Capture.{Ctx, open_, close_}

-- `capture_open` of src/capture.c returns 0 exactly if `socket`, `ioctl` and `bind` succeed, whether
-- the interface could be put into promiscuous mode or not.
pub open-success :
    (opened : List ℕ) (sock : Option ℕ) (promiscuous found bound joined : Bool)
    → ((open_ opened sock promiscuous found bound joined).0 ≡ success)
      ↔ ((sock ≢ none) × (found ≡ true) × (bound ≡ true))
unfolding open_
open-success opened sock promiscuous found bound joined = ground arith

-- After a `capture_open` of src/capture.c that succeeds, `capture_close` leaves exactly the
-- descriptors open that were open before.
pub close-open :
    (opened : List ℕ) (sock : Option ℕ) (promiscuous found bound joined : Bool) {c : Ctx}
    {during : List ℕ} {mode : Bool}
    → open_ opened sock promiscuous found bound joined ≡ (success, c, during, mode)
    → (close_ c during).1 ≡ opened
unfolding open_ close_
close-open opened none promiscuous found bound joined e = ground arith
close-open opened (some fd) promiscuous found bound joined {c = c} {during = during} {mode = mode}
      e =
    ground (arith, close-cons fd opened)

-- After a `capture_open` of src/capture.c that got a socket and fails in `ioctl` or `bind`, exactly
-- the descriptors are open that were before, but the context keeps the number: where another file has
-- got that number since, `capture_close` closes that file.
pub close-open_failed :
    (opened : List ℕ) (fd : ℕ) (promiscuous found bound joined : Bool)
    → found && bound ≡ false
    → let out = open_ opened (some fd) promiscuous found bound joined in
      (out.0 ≡ failure) × (out.2 ≡ opened) × ((close_ out.1 (fd ∷ out.2)).1 ≡ opened)
unfolding open_ close_
close-open_failed opened fd promiscuous found bound joined h = ground (arith, close-cons fd opened)
