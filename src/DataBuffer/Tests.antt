-- ===== src/DataBuffer/Tests.antt =====
-- The ring on packets that are numbers, with one and two readers.
use smurf_processor.Prelude.{
  ℕ, ◌≡◌, refl, List, [], ◌∷◌, ok, throw, fault, runtime_error, out_of_range, arith, inr, true,
  false,
}
use smurf_processor.DataBuffer.{DataBuffer, new_buffer, write_packet, read_packet}
use smurf_processor.DataBuffer.Spec.{Op, write, read, spec_run}
use smurf_processor.DataBuffer.Refine.{
  Represents, nil, cons, new_buffer-Represents, run, run_refines,
}
use smurf_processor.DataBuffer.Overrun.{write_all, write_packet-enqueue, overrun_faults}

abbrev calls : List (Op ℕ)
calls =
    read 0 ∷ write 7 ∷ write 8 ∷ read 1 ∷ write 9 ∷ read 0 ∷ read 0 ∷ read 0 ∷ read 0 ∷ read 2 ∷ []

answers :
    run (new_buffer 0 3 2) calls
    ≡ throw runtime_error
      ∷ ok 7
      ∷ ok 7
      ∷ ok 8
      ∷ ok 9
      ∷ throw runtime_error
      ∷ throw out_of_range
      ∷ []
unfolding run write_packet read_packet new_buffer
answers = refl

-- one reader with all of three slots waiting, at the first of them
abbrev full_ring : DataBuffer ℕ
full_ring = record {
  size = 3;
  slots = 7 ∷ 8 ∷ 9 ∷ [];
  readers =
      record { read_ptr = 0; full = true; empty = false; read_cnt = 0; ow_cnt = 0; rof_cnt = 0 }
      ∷ [];
  write_ptr = 0;
  write_cnt = 3;
}

full_ring-Represents : Represents full_ring ((7 ∷ 8 ∷ 9 ∷ []) ∷ [])
full_ring-Represents = record {
  room = refl;
  write_in = omega arith;
  all_see =
      cons
        (record {
          holds = record {
            write_in = omega arith;
            read_in = omega arith;
            fits = omega arith;
            ends = omega arith;
            full_flag = refl;
            empty_flag = refl;
          };
          contains = (refl, (refl, (refl, tt)));
        })
        nil;
}

new_buffer-Represents_example : Represents {A = ℕ} (new_buffer 0 3 2) ([] ∷ [] ∷ [])
new_buffer-Represents_example = new_buffer-Represents 0 3 2 (omega arith)

run_refines_example : run (new_buffer 0 3 2) calls ≡ spec_run ([] ∷ [] ∷ []) calls
unfolding new_buffer
run_refines_example =
    run_refines calls (new_buffer 0 3 2) ([] ∷ [] ∷ []) (new_buffer-Represents 0 3 2 (omega arith))
      (omega arith)

write_packet-enqueue_example :
    (d' : DataBuffer ℕ) × (write_packet full_ring 5 ≡ ok d') × Represents d' ((8 ∷ 9 ∷ 5 ∷ []) ∷ [])
write_packet-enqueue_example =
    write_packet-enqueue full_ring ((7 ∷ 8 ∷ 9 ∷ []) ∷ []) 5 full_ring-Represents
      (inr (omega arith), tt)

overrun_faults_example :
    (d : DataBuffer ℕ) × (write_all (new_buffer 0 2 2) (1 ∷ 2 ∷ 3 ∷ 4 ∷ []) ≡ ok d)
    × ((read_packet d 1).1 ≡ fault)
overrun_faults_example =
    overrun_faults 0 2 2 1 (1 ∷ 2 ∷ 3 ∷ 4 ∷ []) (omega arith) (omega arith) (omega arith)
