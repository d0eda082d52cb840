-- ===== src/Threads/Tests.antt =====
-- The threads on rings of three packets.
use smurf_processor.Prelude.{
  ℕ, ◌≡◌, refl, List, [], ◌∷◌, map, ok, arith, ◌>>=◌, replicate, true, false,
}
use smurf_processor.Prelude.Int.{ℤ, pos}
use smurf_processor.Packet.{Packet, new_packet}
use smurf_processor.Packet.Laws.{new_packet-IsValid}
use smurf_processor.Config.{Config}
use smurf_processor.DataFile.{DataFile, FileCall, new_file}
use smurf_processor.DataFile.Calls.{write_files}
use smurf_processor.DataBuffer.{DataBuffer, new_buffer, is_empty, write_packet, read_packet}
use smurf_processor.DataBuffer.Spec.{Op, write, read}
use smurf_processor.DataBuffer.Refine.{Represents, nil, cons, new_buffer-Represents}
use smurf_processor.Threads.{run_threads, transmitter_turn, writer_turns}
use smurf_processor.Threads.Delivery.{Delivered, run_threads-Delivered, run_threads-is_empty}
use smurf_processor.Threads.Filing.{calls_with, writer_turns-write_files}

-- The second reader is slower, and the first one has a turn for nothing.
abbrev turns : List (Op ℕ)
turns = write 7 ∷ read 0 ∷ read 0 ∷ write 8 ∷ write 9 ∷ read 1 ∷ write 10 ∷ read 0 ∷ read 1 ∷ []

passed :
    (run_threads (new_buffer 0 3 2) turns >>= λ out. ok out.1)
    ≡ ok ((0, 7) ∷ (1, 7) ∷ (0, 8) ∷ (1, 8) ∷ [])
unfolding run_threads transmitter_turn write_packet read_packet is_empty new_buffer
passed = refl

run_threads-Delivered_example :
    (d' : DataBuffer ℕ) × (log : List (ℕ × ℕ)) × (qs' : List (List ℕ)) × (run_threads
        (new_buffer 0 3 2)
        turns
      ≡ ok (d', log))
    × Represents d' qs'
    × Delivered ([] ∷ [] ∷ []) qs' turns log
unfolding new_buffer
run_threads-Delivered_example =
    run_threads-Delivered turns (new_buffer 0 3 2) ([] ∷ [] ∷ [])
      (new_buffer-Represents 0 3 2 (omega arith)) (omega arith) (omega arith)

-- Three packets wait for the only reader.
abbrev ring : {A : Type 0} → A → A → A → DataBuffer A
ring a b c = record {
  size = 4;
  slots = a ∷ b ∷ c ∷ a ∷ [];
  readers =
      record { read_ptr = 0; full = false; empty = false; read_cnt = 0; ow_cnt = 0; rof_cnt = 0 }
      ∷ [];
  write_ptr = 3;
  write_cnt = 3;
}

ring-Represents : {A : Type 0} (a b c : A) → Represents (ring a b c) ((a ∷ b ∷ c ∷ []) ∷ [])
ring-Represents a b c = record {
  room = refl;
  write_in = omega arith;
  all_see =
      cons
        (record {
          holds = record {
            write_in = omega arith;
            read_in = omega arith;
            fits = omega arith;
            ends = omega arith;
            full_flag = refl;
            empty_flag = refl;
          };
          contains = (refl, (refl, (refl, tt)));
        })
        nil;
}

run_threads-is_empty_example :
    (d' : DataBuffer ℕ) × (qs' : List (List ℕ)) × (run_threads (ring 7 8 9) (replicate 3 (read 0))
      ≡ ok (d', map (λ a. (0, a)) (7 ∷ 8 ∷ 9 ∷ [])))
    × Represents d' qs'
    × (is_empty d' 0 ≡ ok true)
run_threads-is_empty_example =
    run_threads-is_empty (7 ∷ 8 ∷ 9 ∷ []) (ring 7 8 9) ((7 ∷ 8 ∷ 9 ∷ []) ∷ []) 0
      (ring-Represents 7 8 9) refl

abbrev settings : Config ℕ
settings = record {
  num_averages = pos 1;
  data_file_name = 100 ∷ [];
  file_name_extend = pos 1;
  data_frames = pos 2;
  filter_order = pos 0;
  filter_g = 1;
  filter_a = [];
  filter_b = [];
}

abbrev inputs : List (ℤ × Config ℕ)
inputs = (pos 7, settings) ∷ (pos 8, settings) ∷ (pos 9, settings) ∷ []

abbrev packets : List Packet
packets = new_packet ∷ new_packet ∷ new_packet ∷ []

abbrev waiting : DataBuffer Packet
waiting = ring new_packet new_packet new_packet

writer_turns-write_files_example :
    (d' : DataBuffer Packet) × (file' : DataFile) × (calls : List FileCall) × (results : List ℕ)
    × (writer_turns waiting new_file 0 inputs ≡ ok (d', file', calls))
    × (write_files new_file (calls_with inputs packets) ≡ ok (file', calls, results))
    × (is_empty d' 0 ≡ ok true)
writer_turns-write_files_example =
    writer_turns-write_files inputs packets waiting new_file (packets ∷ []) 0
      (ring-Represents new_packet new_packet new_packet) refl refl
      (new_packet-IsValid, (new_packet-IsValid, (new_packet-IsValid, tt)))
