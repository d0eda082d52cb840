-- ===== src/Threads/Races/Tests.antt =====
-- A ring of two packets, with the writer and the only reader at work.
use smurf_processor.Prelude.{ℕ, ◌≡◌, refl, true, false, none, some, [], ◌∷◌, arith}
use smurf_processor.DataBuffer.{Reader}
use smurf_processor.Threads.Placed.{IsPlaced}
use smurf_processor.Threads.Steps.{System, Step}
use smurf_processor.Threads.Races.{Step_same_slot}

abbrev crowded_reader : Reader
crowded_reader = record {
  read_ptr = 0;
  full = true;
  empty = false;
  read_cnt = 0;
  ow_cnt = 0;
  rof_cnt = 0;
}

-- Two packets wait for the only reader.
abbrev crowded : System ℕ
crowded = record {
  ring = record {
    size = 2;
    slots = 7 ∷ 8 ∷ [];
    readers = crowded_reader ∷ [];
    write_ptr = 0;
    write_cnt = 2;
  };
  writing = none;
  write_ending = [];
  reading = λ i. none;
  read_ending = λ i. [];
  matched = λ i. false;
}

crowded-IsPlaced : IsPlaced 2 0 crowded_reader
crowded-IsPlaced = (
  2,
  record {
    write_in = omega arith;
    read_in = omega arith;
    fits = omega arith;
    ends = omega arith;
    full_flag = refl;
    empty_flag = refl;
  },
)

Step_same_slot_example :
    (t : System ℕ) × (u : System ℕ) × (slot : ℕ) × Step crowded t
    × Step t u
    × (u.writing ≡ some slot)
    × (u.reading 0 ≡ some slot)
Step_same_slot_example =
    Step_same_slot crowded 0 crowded_reader (omega arith) crowded-IsPlaced refl refl refl refl refl
      refl
