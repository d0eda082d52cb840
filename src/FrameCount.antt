-- ===== src/FrameCount.antt =====
-- The frame counters of `runThread`, src/smurf_processor.cpp, and `clearFrameCnt`.
pub mod Laws
mod Tests
use smurf_processor.Prelude.{
  ℕ, ◌+◌, ◌-◌, ◌%◌, ◌^◌, ltb, ◌==◌, if◌then◌else◌, Bool, true, false, List, [], ◌∷◌,
}

-- The thread's `frameNumber` and `firstFrame`, and the object's counters
pub record FrameCount : Type 0 where
  pub frame_number : ℕ
  pub first_frame : Bool
  pub frame_rx_cnt : ℕ
  pub frame_loss_cnt : ℕ
  pub frame_out_order_cnt : ℕ

abbrev pub new_count : FrameCount
new_count = record {
  frame_number = 0;
  first_frame = true;
  frame_rx_cnt = 0;
  frame_loss_cnt = 0;
  frame_out_order_cnt = 0;
}

-- Counters of the type `size_t`
abbrev pub plus : ℕ → ℕ → ℕ
plus cnt n = (cnt + n) % 2 ^ 64

abbrev received : FrameCount → FrameCount
received s = record s { frame_rx_cnt = plus s.frame_rx_cnt 1 }

-- The difference is taken on 32 bits before it is stored in a `size_t`.
abbrev pub number_delta : ℕ → ℕ → ℕ
number_delta number prev = (number + 2 ^ 32 - prev + 2 ^ 32 - 1) % 2 ^ 32

-- The frame numbered `number`: the new state, and whether the frame is processed. A discarded frame's
-- number is kept as the last one.
unfoldable pub count_number : FrameCount → ℕ → FrameCount × Bool
count_number s number =
    let prev = s.frame_number in
    let kept = record s { frame_number = number } in
    if s.first_frame
    then (received (record kept { first_frame = false }), true)
    else if ltb number prev
    then (record kept { frame_out_order_cnt = plus s.frame_out_order_cnt 1 }, false)
    else (
      received (record kept { frame_loss_cnt = plus s.frame_loss_cnt (number_delta number prev) }),
      true,
    )

unfoldable pub count_numbers : FrameCount → List ℕ → FrameCount
count_numbers s [] = s
count_numbers s (n ∷ numbers) = count_numbers (count_number s n).0 numbers

abbrev pub clear_frame_cnt : FrameCount → FrameCount
clear_frame_cnt s = record s { frame_loss_cnt = 0; frame_rx_cnt = 0; frame_out_order_cnt = 0 }
