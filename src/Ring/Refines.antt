-- ===== src/Ring/Refines.antt =====
-- The ring of src/ring.c seen as the forgetful queue of the packets that it holds.
use mathlib.Core.List.{map-append}
use pktsnare.Common.{
  ℕ, suc, ◌+◌, ◌-◌, ◌≤◌, ◌<◌, ◌≡◌, refl, ap, ◌∙◌, false, List, [], ◌∷◌, ◌++◌, map, arith, length,
  length-map, set, get_or, take, take-take_append, add64, ltb, ◌==◌, ==_iff, ◌||◌, if◌then◌else◌,
  ℕ_discrete,
}
use mathlib.Core.Option
use pktsnare.Common.Int.{pos, success}
use pktsnare.Ring.{Ring, Entry, max_pkt_size, zeroed, fill, make_room, store, push, pop}
use pktsnare.Ring.Invariant.{IsValid, HasRoom, make_room-full, make_room-free, make_room-HasRoom}
use pktsnare.Ring.Window.{window, length-window, window_of_ne_zero, window-set}
use pktsnare.Ring.Queue
use pktsnare.Ring.Queue.{Queue, Packet}

abbrev pub packet : Entry → Packet
packet e = (take e.len e.bytes, e.timestamp_us)

abbrev pub entries_held : Ring → List Entry
entries_held r = window zeroed r.entries r.capacity r.tail r.count

abbrev pub view : Ring → Queue
view r = record { held = map packet (entries_held r); lost = r.dropped }

packet-fill :
    (slot : Entry) (bytes : List ℕ) (len ts : ℕ)
    → len ≤ length bytes
    → packet (fill slot bytes len ts) ≡ (take len bytes, ts)
unfolding fill
packet-fill slot bytes len ts h = ap (λ b. (b, ts)) (take-take_append len bytes _ h)

-- The packet is written behind those that were held.
held-store :
    {r : Ring} (bytes : List ℕ) (len ts : ℕ)
    → HasRoom r
    → len ≤ length bytes
    → map packet (entries_held (store r bytes len ts))
      ≡ map packet (window zeroed r.entries r.capacity r.tail (r.count - 1))
        ++ (take len bytes, ts) ∷ []
unfolding store
held-store {r} bytes len ts v h =
    ap (λ k. map packet (window zeroed (set r.entries r.head e) r.capacity r.tail k)) counted
    ∙ ap (map packet) written
    ∙ map-append packet (window zeroed r.entries r.capacity r.tail (r.count - 1)) (e ∷ [])
    ∙ ap (λ p. map packet (window zeroed r.entries r.capacity r.tail (r.count - 1)) ++ p ∷ [])
        (packet-fill (get_or r.entries r.head zeroed) bytes len ts h)
  where
    counted : r.count ≡ suc (r.count - 1)
    counted = omega (arith, v.some_in)

    e : Entry
    e = fill (get_or r.entries r.head zeroed) bytes len ts

    written :
        window zeroed (set r.entries r.head e) r.capacity r.tail (suc (r.count - 1))
        ≡ window zeroed r.entries r.capacity r.tail (r.count - 1) ++ e ∷ []
    written =
        window-set zeroed r.entries r.capacity (r.count - 1) r.tail r.head e v.space v.tail_in
          (omega (arith, v.some_in, v.count_in)) v.head_eq

pub length-held : (r : Ring) → length (view r).held ≡ r.count
length-held r =
    length-map packet (entries_held r) ∙ length-window zeroed r.entries r.capacity r.tail r.count

-- Making room forgets the oldest packet of a full ring, and nothing else.
held-make_room :
    {r : Ring}
    → IsValid r
    → let r' = make_room r in
      map packet (window zeroed r'.entries r'.capacity r'.tail (r'.count - 1))
      ≡ (if r.count == r.capacity then Queue.rest (view r).held else (view r).held)
held-make_room {r} v = elim (ℕ_discrete r.count r.capacity) [
  | yes e ↦
      rw (make_room-full v e, (==_iff r.count r.capacity).1 e)
        (rw (
          window_of_ne_zero zeroed r.entries r.capacity r.tail r.count (omega (arith, v.nonempty))))
  | no ne ↦
      let test : (r.count == r.capacity) ≡ false = ground arith in
      rw (make_room-free v ne, test)
        (ap (λ k. map packet (window zeroed r.entries r.capacity r.tail k)) (omega arith))
]

lost-make_room :
    (r : Ring)
    → (make_room r).dropped ≡ (if r.count == r.capacity then add64 r.dropped 1 else r.dropped)
unfolding make_room
lost-make_room r = ground arith

-- `ring_push` of a packet of an acceptable length that its buffer holds is the queue's push.
pub push_refines :
    {r : Ring} (bytes : List ℕ) (len ts : ℕ)
    → IsValid r
    → 0 < len
    → len ≤ max_pkt_size
    → len ≤ length bytes
    → let (status, r') = push r bytes len ts in
      (status ≡ success) × (view r' ≡ Queue.push r.capacity (view r) (take len bytes, ts))
unfolding push Queue.push store
push_refines {r} bytes len ts v lo hi h =
    let good : (len == 0 || ltb max_pkt_size len) ≡ false = ground arith in
    rw (good, length-held r)
      (refl, pushed (held-store bytes len ts (make_room-HasRoom v) h) (held-make_room v))
  where
    pushed :
        map packet (entries_held (store (make_room r) bytes len ts))
          ≡ map packet (
              window zeroed
                (make_room r).entries
                (make_room r).capacity
                (make_room r).tail
                ((make_room r).count - 1))
            ++ (take len bytes, ts) ∷ []
        → map packet (
            window zeroed
              (make_room r).entries
              (make_room r).capacity
              (make_room r).tail
              ((make_room r).count - 1))
          ≡ (if r.count == r.capacity then Queue.rest (view r).held else (view r).held)
        → view (store (make_room r) bytes len ts) ≡ (
            if r.count == r.capacity
            then record {
              held = Queue.rest (view r).held ++ (take len bytes, ts) ∷ [];
              lost = add64 r.dropped 1;
            }
            else record { held = (view r).held ++ (take len bytes, ts) ∷ []; lost = r.dropped })
    pushed p q = ground (arith, lost-make_room r)

-- `ring_pop` is the queue's pop; it returns 1 on an empty ring.
pub pop_refines :
    {r : Ring}
    → IsValid r
    → let (status, out, r') = pop r in
      (status ≡ (if r.count == 0 then pos 1 else success))
      × ((Option.map packet out, view r') ≡ Queue.pop (view r))
unfolding pop Queue.pop
pop_refines {r} v = elim (ℕ_discrete r.count 0) [
  | yes e ↦
      let none_held : (view r).held ≡ [] =
        ap (λ k. map packet (window zeroed r.entries r.capacity r.tail k)) e in
      rw ((==_iff r.count 0).1 e) (rw none_held (refl, refl))
  | no ne ↦
      let small : add64 r.tail 1 ≡ r.tail + 1 = omega arith in
      let test : (r.count == 0) ≡ false = ground arith in
      rw (test, small, window_of_ne_zero zeroed r.entries r.capacity r.tail r.count ne) (refl, refl)
]
