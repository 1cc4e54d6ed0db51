-- ===== src/Conntrack/Tests.antt =====
-- Runs of the model of src/conntrack.c, and its theorems at concrete inputs.
use pktsnare.Common.{◌≡◌, refl, false, some, [], ◌∷◌, arith}
use pktsnare.Common.Int.{ℤ, pos, success}
use pktsnare.Conntrack.{
  Ctx, Entry, Key, is_closed, close, zeroed, conn_hash, key_eq, opened, probe, update, lookup,
  expire,
}
use pktsnare.Conntrack.Invariant.{IsValid, update-IsValid}
use pktsnare.Conntrack.Found.{lookup-update}
use pktsnare.Conntrack.Expiry.{expire-connections, lookup-expired}

abbrev key_a : Key
key_a = record { src_ip = 1; dst_ip = 2; src_port = 0; dst_port = 3; proto = 6; padding = 0 }

abbrev key_b : Key
key_b = record { src_ip = 1; dst_ip = 2; src_port = 0; dst_port = 3; proto = 7; padding = 0 }

abbrev empty_two : Ctx
empty_two = record { entries = zeroed ∷ zeroed ∷ []; limit = 2; count = 0 }

abbrev one_a : Ctx
one_a = record { entries = opened key_a 100 false 50 ∷ zeroed ∷ []; limit = 2; count = 1 }

empty_two-IsValid : IsValid empty_two
empty_two-IsValid = record {
  space = refl;
  nonempty = omega arith;
  counted = refl;
  plain = (λ z. refl, (λ z. refl, tt));
}

one_a-IsValid : IsValid one_a
one_a-IsValid = record {
  space = refl;
  nonempty = omega arith;
  counted = refl;
  plain = (λ z. refl, (λ z. refl, tt));
}

update_run : update empty_two key_a 100 false 50 ≡ some (success, one_a)
unfolding update probe conn_hash
update_run = refl

-- A connection behind a closed slot is entered a second time, in that slot.
abbrev gap : Ctx
gap = record {
  entries = close (opened key_b 10 false 40) ∷ opened key_a 100 false 50 ∷ [];
  limit = 2;
  count = 1;
}

duplicate_run :
    update gap key_a 7 false 60
    ≡ some (
      success,
      record {
        entries = opened key_a 7 false 60 ∷ opened key_a 100 false 50 ∷ [];
        limit = 2;
        count = 2;
      },
    )
unfolding update probe conn_hash
duplicate_run = refl

update-IsValid_example :
    (out : ℤ × Ctx) × (update empty_two key_a 100 false 50 ≡ some out) × IsValid out.1
update-IsValid_example = update-IsValid empty_two key_a 100 false 50 empty_two-IsValid (omega arith)

lookup-update_example :
    (e : Entry) × (lookup one_a key_a ≡ some (some e))
    × (e.key ≡ key_a)
    × (e.last_seen ≡ 50)
    × (is_closed e.state ≡ false)
lookup-update_example =
    lookup-update empty_two key_a empty_two-IsValid 100 false 50 (omega arith) update_run

expire-connections_example : IsValid (expire one_a 110 (pos 60)).1
expire-connections_example = (expire-connections 110 (pos 60) one_a one_a-IsValid).3

lookup-expired_example :
    lookup (expire one_a 110 (pos 60)).1 key_a ≡ some (some (close (opened key_a 100 false 50)))
unfolding lookup probe conn_hash key_eq
lookup-expired_example =
    lookup-expired 110 (pos 60) one_a key_a (opened key_a 100 false 50) refl refl
