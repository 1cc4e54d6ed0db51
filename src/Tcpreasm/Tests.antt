-- ===== src/Tcpreasm/Tests.antt =====
-- Runs of the model of src/tcpreasm.c, and its theorems at concrete inputs.
use pktsnare.Common.{◌≡◌, refl, true, List, [], ◌∷◌, arith}
use pktsnare.Common.Int.{success}
use pktsnare.Table.Scan.{scan}
use pktsnare.Tcpreasm.{
  Stream, Flow, init, opened, insert_segment, get_stream, add_to_stream, copy_segments, get_data,
  add_segment, expire, expire_from,
}
use pktsnare.Tcpreasm.Segments.{IsValid as IsWhole, Copies, add_to_stream_lem, get_data_lem}
use pktsnare.Tcpreasm.Calls.{Call, lookup, segment, expiry, run, expire-run}

abbrev flow : Flow
flow = record { src_ip = 1; dst_ip = 2; src_port = 80; dst_port = 99 }

abbrev empty : Stream
empty = opened flow

empty-IsWhole : IsWhole empty
empty-IsWhole = record { counted = refl; sorted = tt; full = tt }

-- The later segment came first.
reorder_run :
    get_data (add_to_stream (add_to_stream empty 20 (3 ∷ 4 ∷ []) 2) 10 (1 ∷ 2 ∷ []) 2) 100
    ≡ (success, 1 ∷ 2 ∷ 3 ∷ 4 ∷ [])
unfolding get_data copy_segments add_to_stream insert_segment
reorder_run = refl

add_to_stream_lem_example : IsWhole (add_to_stream empty 20 (3 ∷ 4 ∷ []) 2)
add_to_stream_lem_example =
    (add_to_stream_lem empty 20 (3 ∷ 4 ∷ []) 2 empty-IsWhole (omega arith)).0

get_data_lem_example :
    Copies 1 []
      (add_to_stream empty 20 (3 ∷ 4 ∷ []) 2).segs
      (get_data (add_to_stream empty 20 (3 ∷ 4 ∷ []) 2) 1).1
get_data_lem_example =
    (get_data_lem (add_to_stream empty 20 (3 ∷ 4 ∷ []) 2) 1
      ((add_to_stream_lem empty 20 (3 ∷ 4 ∷ []) 2 empty-IsWhole (omega arith)).0)).0

abbrev calls : List Call
calls =
    lookup flow ∷ segment 0 20 (3 ∷ 4 ∷ []) 2 true ∷ expiry 12 ∷ segment 0 10 (7 ∷ []) 1 true ∷ []

-- The segments are there, and the expiry at 12 took nothing.
stream_count-run : (run init calls).stream_count ≡ 1
unfolding init get_stream add_segment add_to_stream insert_segment expire expire_from scan
stream_count-run = refl

expire-run_example : (expire (run init calls) 30).stream_count ≡ 0
expire-run_example = (expire-run calls 30 (omega arith) (omega arith)).1
