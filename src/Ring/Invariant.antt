-- ===== src/Ring/Invariant.antt =====
-- The representation invariant of the ring of src/ring.c.
use pktsnare.Common.{
  ℕ, ◌+◌, ◌-◌, ◌%◌, ◌^◌, ◌≤◌, ◌<◌, ◌≡◌, ◌≢◌, List, some, arith, length, length-set, Bool,
  length-replicate, add64, ltb, ◌==◌, ==_iff, ◌||◌, Bool-cases, inl, inr, false, ap, ◌∙◌,
  ℕ_discrete,
}
use pktsnare.Ring.{Ring, max_pkt_size, zeroed, create, make_room, store, push, pop}
use pktsnare.Common.Modular.{next_mod, step_back}

-- The write index is `count` places past the read index.
pub record IsValid (r : Ring) : Type 0 where
  pub space : length r.entries ≡ r.capacity
  pub nonempty : 0 < r.capacity
  pub small : r.capacity < 2 ^ 63
  pub tail_in : r.tail < r.capacity
  pub count_in : r.count ≤ r.capacity
  pub head_eq : r.head ≡ (r.tail + r.count) % r.capacity

pub create-IsValid :
    (capacity : ℕ) (a b : Bool) {r : Ring}
    → capacity < 2 ^ 63
    → create capacity a b ≡ some r
    → IsValid r × (r.count ≡ 0)
unfolding create
create-IsValid capacity a b h e =
    ground (arith, length-replicate capacity zeroed, length-replicate 64 zeroed)

-- A ring in which the slot at `head` is counted already and waits for its packet.
pub record HasRoom (r : Ring) : Type 0 where
  pub space : length r.entries ≡ r.capacity
  pub small : r.capacity < 2 ^ 63
  pub tail_in : r.tail < r.capacity
  pub head_in : r.head < r.capacity
  pub some_in : 0 < r.count
  pub count_in : r.count ≤ r.capacity
  pub head_eq : r.head ≡ (r.tail + (r.count - 1)) % r.capacity

pub make_room-full :
    {r : Ring}
    → IsValid r
    → r.count ≡ r.capacity
    → make_room r ≡ record r { tail = (r.tail + 1) % r.capacity; dropped = add64 r.dropped 1 }
unfolding make_room
make_room-full {r} v e =
    let small : add64 r.tail 1 ≡ r.tail + 1 = omega arith in
    rw ((==_iff r.count r.capacity).1 e, small)

pub make_room-free :
    {r : Ring} → IsValid r → r.count ≢ r.capacity → make_room r ≡ record r { count = r.count + 1 }
unfolding make_room
make_room-free {r} v ne =
    let small : add64 r.count 1 ≡ r.count + 1 = omega arith in
    let test : (r.count == r.capacity) ≡ false = ground arith in rw (test, small)

pub make_room-HasRoom : {r : Ring} → IsValid r → HasRoom (make_room r)
make_room-HasRoom {r} v = elim (ℕ_discrete r.count r.capacity) [
  | yes e ↦ rw (make_room-full v e) (record {
    space = v.space;
    small = v.small;
    tail_in = omega arith;
    head_in = omega arith;
    some_in = omega arith;
    count_in = omega arith;
    head_eq = step_back r.capacity r.tail r.count r.head (omega arith) v.head_eq;
  })
  | no ne ↦ rw (make_room-free v ne) (record {
    space = v.space;
    small = v.small;
    tail_in = omega arith;
    head_in = omega arith;
    some_in = omega arith;
    count_in = omega arith;
    head_eq = v.head_eq ∙ ap (λ k. (r.tail + k) % r.capacity) (omega arith);
  })
]

pub store-IsValid :
    {r : Ring} (packet : List ℕ) (len ts : ℕ) → HasRoom r → IsValid (store r packet len ts)
unfolding store
store-IsValid {r} packet len ts v =
    let small : add64 r.head 1 ≡ r.head + 1 = omega arith in
    let next : r.tail + (r.count - 1) + 1 ≡ r.tail + r.count = omega arith in
    record {
      space = length-set r.entries r.head _ ∙ v.space;
      nonempty = omega arith;
      small = v.small;
      tail_in = v.tail_in;
      count_in = v.count_in;
      head_eq = rw (small, v.head_eq, next_mod (r.tail + (r.count - 1)) r.capacity, next);
    }

pub push-IsValid :
    {r : Ring} (packet : List ℕ) (len ts : ℕ) → IsValid r → IsValid (push r packet len ts).1
unfolding push
push-IsValid {r} packet len ts v = elim (Bool-cases (len == 0 || ltb max_pkt_size len)) [
  | inl bad ↦ rw bad v
  | inr good ↦ rw good (store-IsValid packet len ts (make_room-HasRoom v))
]

pub pop-IsValid : {r : Ring} → IsValid r → IsValid (pop r).2
unfolding pop
pop-IsValid {r} v = elim (Bool-cases (r.count == 0)) [
  | inl empty ↦ rw empty v
  | inr held ↦
      let small : add64 r.tail 1 ≡ r.tail + 1 = omega arith in
      let some_in : r.count ≢ 0 = ground arith in
      rw (held, small)
        (record {
          space = v.space;
          nonempty = v.nonempty;
          small = v.small;
          tail_in = omega arith;
          count_in = omega arith;
          head_eq = step_back r.capacity r.tail r.count r.head some_in v.head_eq;
        })
]
