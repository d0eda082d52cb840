-- ===== src/FrameCount/Tests.antt =====
-- The frame counters on concrete sequences.
use smurf_processor.Prelude.{◌+◌, ◌-◌, ◌^◌, ◌≡◌, refl, [], ◌∷◌, arith, false}
use smurf_processor.FrameCount.{FrameCount, new_count, count_number, count_numbers}
use smurf_processor.FrameCount.Laws.{count_numbers-Rises, late_frame_loss}

two_lost : (count_numbers new_count (5 ∷ 6 ∷ 9 ∷ 10 ∷ [])).frame_loss_cnt ≡ 2
unfolding count_numbers count_number
two_lost = refl

-- the frame number's own wrap-around is taken for a late frame
wrap_around : (count_numbers new_count (0xffff_ffff ∷ 0 ∷ 1 ∷ [])).frame_out_order_cnt ≡ 1
unfolding count_numbers count_number
wrap_around = refl

count_numbers-Rises_example :
    (let s = count_numbers new_count (5 ∷ 6 ∷ 9 ∷ 10 ∷ []) in
      (s.frame_rx_cnt ≡ 4)
      × (s.frame_out_order_cnt ≡ 0)
      × (s.frame_rx_cnt + s.frame_loss_cnt + 5 ≡ 11))
count_numbers-Rises_example =
    count_numbers-Rises 5 (6 ∷ 9 ∷ 10 ∷ [])
      (omega arith, omega arith, (omega arith, omega arith, (omega arith, omega arith, tt)))
      (omega arith)

abbrev at_nine : FrameCount
at_nine = record new_count { frame_number = 9; first_frame = false }

late_frame_loss_example :
    (let late = count_numbers at_nine (7 ∷ 10 ∷ []) in
      (late.frame_out_order_cnt ≡ 0 + 1) × (late.frame_loss_cnt ≡ 0 + (9 - 7)))
    × ((count_numbers at_nine (9 ∷ [])).frame_loss_cnt ≡ 0 + (2 ^ 32 - 1))
late_frame_loss_example =
    late_frame_loss at_nine 7 refl (omega arith) (omega arith) (omega arith) (omega arith)
