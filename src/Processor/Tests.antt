-- ===== src/Processor/Tests.antt =====
-- A run of three frames, with whole numbers for doubles.
use smurf_processor.Prelude.{
  zero, suc, ap, All-replicate, true, length-replicate, ℕ, ◌+◌, ◌-◌, ◌*◌, ◌/◌, ◌<◌, ◌≡◌, refl, inl,
  inr, List, [], ◌∷◌, some, ok, arith, length, replicate,
}
use smurf_processor.Prelude.Int.{ℤ, pos, pos_part}
use smurf_processor.Prelude.Bytes.{replicate-IsBytes, load, word}
use smurf_processor.Prelude.Strings.{codes, strtol, digits}
use smurf_processor.Filter.{Arith}
use smurf_processor.Config.Usable.{IsFile}
use smurf_processor.Config.{Config, default_config}
use smurf_processor.Header as H
use smurf_processor.Header.{Header, new_header, average_control}
use smurf_processor.Unwrap.Bounds.{IsWithin}
use smurf_processor.Filter.Block.{new_filter-IsRing}
use smurf_processor.Filter.{Filter, new_filter, filter}
use smurf_processor.TestData.{new_test_data}
use smurf_processor.Timing.{new_valid_check}
use smurf_processor.FrameCount.{new_count}
use smurf_processor.DataBuffer.{new_buffer}
use smurf_processor.DataBuffer.Room.{new_buffer-room}
use smurf_processor.Packet.{new_packet, smurf_samples}
use smurf_processor.Unwrap.{smurf_raw_samples, unwrap_samples}
use smurf_processor.Frame.{samples_from}
use smurf_processor.Processor.Frames.{Output, process-Output}
use smurf_processor.Processor.{buffer, buffer_last, process, Round, Processor}
use smurf_processor.Processor.Ready.{IsReady}

abbrev naturals : Arith ℕ
naturals = record {
  null = 0;
  plus = λ x y. x + y;
  minus = λ x y. x - y;
  times = λ x y. x * y;
  over = λ x y. x / y;
  of_int = pos_part;
  to_int = pos;
}

abbrev strtof : List ℕ → ℕ
strtof word = length word

abbrev sine : ℕ → ℕ → ℤ
sine count param = pos param

abbrev settings : List (List ℕ)
settings = codes "filter_order" ∷ codes "4" ∷ codes "data_frames" ∷ codes "2000" ∷ []

-- A header of zeros but for a frame number of 0x01010101, and raw samples
abbrev frame_round : ℕ → Round
frame_round n = record {
  frame = record { pieces = replicate 128 1 ∷ replicate 8192 n ∷ []; error = 0; flags = 0 };
  time = (1, n);
  unix = n;
  random = λ j. pos j;
  config_file = some settings;
  mask_file = some (1 ∷ 5 ∷ []);
}

settings-IsFile : IsFile (some settings)
unfolding strtol digits
settings-IsFile =
    (omega arith, omega arith, inr (omega arith), (omega arith, omega arith, inl refl, tt))

abbrev averaging : Config ℕ
averaging = record (default_config strtof 0 1) { num_averages = pos 1; data_frames = pos 2000 }

-- A state whose next frame is one of zeros
abbrev waiting : Processor ℕ
waiting = record {
  b0 = replicate 0x8000 0;
  b1 = replicate 0x8000 0;
  bufn = 1;
  wrap_counter = pos 65536 ∷ replicate 527 (pos 0);
  mask = 3 ∷ replicate 527 4095;
  input_data = replicate 528 (pos 0);
  tes_bias = replicate 40 17;
  internal_counter = 0;
  fast_internal_counter = 0;
  last_frame_counter = 0;
  last_1hz_counter = 0;
  last_epicsns = 0;
  debug = true;
  header = new_header;
  config = averaging;
  filter = new_filter naturals 528 16;
  test_data = new_test_data 4096 528;
  valid_check = new_valid_check 3;
  count = new_count;
  tx_buffer = new_buffer new_packet 10 2;
}

waiting-IsReady : IsReady 1 waiting
waiting-IsReady = record {
  first = (replicate-IsBytes 0x8000 0 (omega arith), length-replicate 0x8000 zero);
  second = (replicate-IsBytes 0x8000 0 (omega arith), length-replicate 0x8000 zero);
  masked = (omega arith, All-replicate (λ (m : ℕ). m < 4096) 527 4095 (omega arith));
  mask_size = ap suc (length-replicate {A = ℕ} 527 4095);
  near = (
    (omega arith, omega arith),
    All-replicate (IsWithin 1) 527 (pos 0) (omega arith, omega arith),
  );
  wraps_size = ap suc (length-replicate 527 (pos 0));
  inputs_size = length-replicate 528 (pos 0);
  bias = replicate-IsBytes 40 17 (omega arith);
  bias_size = length-replicate 40 zero;
  channels = refl;
  cells = (new_filter-IsRing naturals 528 16 (omega arith), refl);
  usable = record { order = omega arith; a = refl; b = refl };
  ring = new_buffer-room new_packet 10 2 (omega arith);
}

waiting-mode : H.get_test_mode 7 (buffer waiting) ≡ ok 0
unfolding H.get_test_mode H.pull_bit_field load word
waiting-mode = refl

process-Output_example :
    (let d = samples_from smurf_raw_samples 0 (buffer waiting) in
      let p = samples_from smurf_raw_samples 0 (buffer_last waiting) in
      (wraps : List ℤ) × (inputs : List ℤ) × (f : Filter ℕ) × (samples : List ℤ) × (h : Header)
      × (cnt : ℕ) × (s' : Processor ℕ) × (unwrap_samples smurf_samples d p waiting.mask
            waiting.wrap_counter waiting.input_data
          ≡ ok (wraps, inputs))
      × (filter naturals averaging.filter_a averaging.filter_b waiting.filter inputs (pos 0) 1
          ≡ ok (f, samples))
      × (average_control 7 (buffer waiting) (1, 5) waiting.header (pos 1) ≡ ok (h, cnt))
      × (process naturals strtof sine 7 (frame_round 5) waiting ≡ ok s')
      × Output naturals strtof sine 7 waiting s' cnt samples)
process-Output_example =
    process-Output naturals strtof sine 7 1 (frame_round 5) waiting waiting-IsReady (omega arith)
      settings-IsFile waiting-mode
