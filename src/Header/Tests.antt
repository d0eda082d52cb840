-- ===== src/Header/Tests.antt =====
-- The header's fields and the average counter on concrete frames.
use smurf_processor.Prelude.{
  ℕ, suc, ◌+◌, ◌<◌, ◌≡◌, ◌≢◌, ◌↔◌, ◌⊎◌, refl, List, [], ◌∷◌, ok, ◌>>=◌, arith, length, get_or,
  replicate, set, All,
}
use smurf_processor.Prelude.Int.{pos}
use smurf_processor.Prelude.Bytes.{word, load, replicate-IsBytes, set-IsBytes}
use smurf_processor.Packet.{new_packet}
use smurf_processor.Packet.Laws.{new_packet-IsValid}
use smurf_processor.Header.{
  Header, new_header, pull_bit_field, average_control, get_syncword, get_ext_counter,
}
use smurf_processor.Header.Agree.{Agrees, getters_agree}
use smurf_processor.Header.Averaging.{
  IsFrame, Completes, sync_of, due, average_control_lem, run_frames, run_frames_periodic,
  run_frames_stalls,
}

abbrev frame : List ℕ
frame = set (replicate 128 0) 96 5

frame-IsFrame : IsFrame frame
frame-IsFrame = (
  set-IsBytes (replicate 128 0) 96 5 (omega arith) (replicate-IsBytes 128 0 (omega arith)),
  omega arith,
)

abbrev three_frames : List ((ℕ × ℕ) × List ℕ)
three_frames = ((1, 0), frame) ∷ ((1, 5), frame) ∷ ((1, 10), frame) ∷ []

-- averages of two, and averages ended by the sync word
two_by_two :
    (run_frames 0xffff (pos 2) new_header three_frames >>= λ out. ok out.1) ≡ ok (0 ∷ 2 ∷ 0 ∷ [])
unfolding run_frames average_control get_syncword get_ext_counter pull_bit_field load word
two_by_two = refl

by_sync_word :
    (run_frames 0xffff (pos 0) new_header three_frames >>= λ out. ok out.1) ≡ ok (1 ∷ 0 ∷ 0 ∷ [])
unfolding run_frames average_control get_syncword get_ext_counter pull_bit_field load word
by_sync_word = refl

getters_agree_example : Agrees 0xabcd new_packet
getters_agree_example = getters_agree 0xabcd new_packet-IsValid

average_control_lem_example :
    (s' : Header) × (n : ℕ) × (average_control 9 frame (1, 0) new_header (pos 0) ≡ ok (s', n))
    × (n + s'.average_counter ≡ 1)
    × ((n ≢ 0) ↔ Completes new_header frame (pos 0))
    × (s'.last_syncword ≡ sync_of frame)
    × ((n ≡ 0) ⊎ (s'.average_counter ≡ 0))
average_control_lem_example =
    average_control_lem 9 frame (1, 0) new_header (pos 0) frame-IsFrame (omega arith) (omega arith)

run_frames_periodic_example :
    (s' : Header) × (results : List ℕ) × (run_frames 9 (pos 2) new_header three_frames
      ≡ ok (s', results))
    × (length results ≡ 3)
    × ((i : ℕ) → i < 3 → get_or results i 0 ≡ due 2 (0 + suc i))
run_frames_periodic_example =
    run_frames_periodic 9 (pos 2) new_header three_frames
      (frame-IsFrame, (frame-IsFrame, (frame-IsFrame, tt))) (omega arith)

-- five frames counted, and two are now enough
abbrev late : Header
late = record new_header { average_counter = 5 }

run_frames_stalls_example :
    (s' : Header) × (results : List ℕ) × (run_frames 9 (pos 2) late three_frames ≡ ok (s', results))
    × All (λ n. n ≡ 0) results
    × (s'.average_counter ≡ 5 + 3)
run_frames_stalls_example =
    run_frames_stalls 9 (pos 2) late three_frames
      (frame-IsFrame, (frame-IsFrame, (frame-IsFrame, tt))) (omega arith) (omega arith)
      (omega arith)
