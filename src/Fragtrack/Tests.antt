-- ===== src/Fragtrack/Tests.antt =====
-- Runs of the model of src/fragtrack.c, and its theorems at concrete inputs.
use pktsnare.Common.{◌⊎◌, ◌≡◌, refl, true, false, not, Perm}
use pktsnare.Common.Filter.{keep}
use pktsnare.Table.Scan.{scan}
use pktsnare.Table.Packed.{sweep, copy_slot}
use pktsnare.Fragtrack.{
  Table, Key, init, add, add_live, add_fragment, find_entry, expire, covered, is_covered,
  is_complete, stale,
}
use pktsnare.Fragtrack.Laws.{live, init-bounded, expire-datagrams, add-bounded}
use pktsnare.Fragtrack.Arrays.{init-arrays, add-arrays}
use pktsnare.Fragtrack.Datagrams.{seen}
use pktsnare.Fragtrack.Completion.{Joins, IsDropped, is_complete-add}

abbrev key : Key
key = record { src = 1; dst = 2; ip_id = 3; proto = 17 }

abbrev last_part : Table
last_part = (add 10 init key 100 50 false).1

-- The last 50 bytes of 150, three times over: the first 100 never came.
duplicate_run :
    is_complete (add 12 (add 11 last_part key 100 50 false).1 key 100 50 false).1 key ≡ true
unfolding is_complete add add_live add_fragment find_entry expire covered is_covered init scan sweep
    copy_slot
duplicate_run = refl

expire-datagrams_example :
    Perm (live (expire last_part 41)) (keep (λ e. not (stale 41 e)) (live last_part))
expire-datagrams_example =
    (expire-datagrams last_part 41 (add-bounded 10 init key 100 50 false init-bounded)).0

-- The first 100 bytes of 150 come second.
is_complete-add_example :
    let r = add 11 last_part key 0 100 true in
    (is_complete r.1 key ≡ (seen r.1 key).complete)
    × (Joins 11 0 100 true (expire last_part 11) key key r
        ⊎ IsDropped (expire last_part 11) key key r)
is_complete-add_example =
    is_complete-add 11 0 100 true last_part key key
      (add-bounded 10 init key 100 50 false init-bounded)
      (add-arrays 10 init key 100 50 false init-arrays)

parts_run : is_complete (add 11 last_part key 0 100 true).1 key ≡ true
unfolding is_complete add add_live add_fragment find_entry expire covered is_covered init scan sweep
    copy_slot
parts_run = refl
