-- ===== src/Pipeline/Tests.antt =====
-- Three frames, and turns of the two threads between them, with whole numbers for doubles.
use smurf_processor.Prelude.{
  ℕ, ◌+◌, ◌-◌, ◌*◌, ◌/◌, ◌<◌, ◌≡◌, refl, inl, List, [], ◌∷◌, some, ok, arith, length, replicate,
}
use smurf_processor.Prelude.Int.{ℤ, pos, negsuc, pos_part}
use smurf_processor.Prelude.Bytes.{replicate-IsBytes}
use smurf_processor.Prelude.Strings.{codes, strtol, digits}
use smurf_processor.Filter.{Arith}
use smurf_processor.Config.Usable.{IsFile}
use smurf_processor.DataFile.{new_file}
use smurf_processor.Processor.{Round, Processor, new_processor}
use smurf_processor.Processor.Runs.{IsRound}
use smurf_processor.Pipeline.{Turn, round, transmit_turn, file_turn}
use smurf_processor.Pipeline.Delivers.{Delivers}
use smurf_processor.Pipeline.Delivery.{run_turns-new_processor}

abbrev whole_numbers : Arith ℕ
whole_numbers = record {
  null = 0;
  plus = λ x y. x + y;
  minus = λ x y. x - y;
  times = λ x y. x * y;
  over = λ x y. x / y;
  of_int = pos_part;
  to_int = pos;
}

abbrev word_length : List ℕ → ℕ
word_length word = length word

abbrev level : ℕ → ℕ → ℤ
level count param = pos param

abbrev settings : List (List ℕ)
settings = codes "num_averages" ∷ codes "1" ∷ codes "data_frames" ∷ codes "100" ∷ []

abbrev frame_round : ℕ → Round
frame_round n = record {
  frame = record { pieces = replicate 128 n ∷ replicate 8192 n ∷ []; error = 0; flags = 0 };
  time = (1, n);
  unix = n;
  random = λ j. pos j;
  config_file = some settings;
  mask_file = some (1 ∷ 5 ∷ []);
}

settings-IsFile : IsFile (some settings)
unfolding strtol digits
settings-IsFile = (omega arith, omega arith, inl refl, (omega arith, omega arith, inl refl, tt))

frame_round-IsRound : (n : ℕ) → n < 256 → IsRound (frame_round n)
frame_round-IsRound n small = record {
  bytes = (replicate-IsBytes 128 n small, (replicate-IsBytes 8192 n small, tt));
  room = omega arith;
  file = settings-IsFile;
}

abbrev turns : List Turn
turns =
    round (frame_round 1)
    ∷ transmit_turn
    ∷ file_turn (negsuc 0)
    ∷ round (frame_round 2)
    ∷ file_turn (pos 5)
    ∷ round (frame_round 3)
    ∷ transmit_turn
    ∷ []

run_turns-new_processor_example :
    (s₀ : Processor ℕ) × (new_processor whole_numbers word_length level 7 1 9
        (some settings)
        (some [])
      ≡ ok s₀)
    × Delivers whole_numbers word_length level 7 turns
        (record { processor = s₀; data_file = new_file })
        []
        []
run_turns-new_processor_example =
    run_turns-new_processor whole_numbers word_length level 7 1 9 (some settings) (some []) turns
      settings-IsFile
      (
        frame_round-IsRound 1 (omega arith),
        (frame_round-IsRound 2 (omega arith), (frame_round-IsRound 3 (omega arith), tt)),
      )
      (omega arith)
      (omega arith, omega arith, (omega arith, omega arith, (omega arith, omega arith, tt)))
