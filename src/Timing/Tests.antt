-- ===== src/Timing/Tests.antt =====
-- The timing checks on concrete values.
use smurf_processor.Prelude.{
  ℕ, ◌+◌, ◌≤◌, ◌≡◌, refl, true, false, List, [], ◌∷◌, ok, ◌>>=◌, arith, set, replicate,
}
use smurf_processor.Prelude.Bytes.{load, word}
use smurf_processor.Header.{
  pull_bit_field, get_epics_seconds, get_epics_nanoseconds, get_syncword, get_1hz_counter,
  get_frame_counter,
}
use smurf_processor.Timing.{Time, new_time, reset, update, ValidCheck, new_valid_check, run}
use smurf_processor.Timing.Laws.{Within, jumps, updates, updates-Within}

-- a clock that counted from 100, with changes from 2 to 10 allowed
abbrev clock : Time
clock = record (reset (new_time 7)) { current = 100; max_allowed_delta = 10; min_allowed_delta = 2 }

updates-Within_example :
    (let t' = updates clock (105 ∷ 106 ∷ 150 ∷ []) in
      (t'.current ≡ 150)
      × Within t'.mindelta t'.maxdelta 100 (105 ∷ 106 ∷ 150 ∷ [])
      × (t'.mindelta ≤ 1000000)
      × (0 ≤ t'.maxdelta)
      × (t'.error_count ≡ 0 + jumps 10 2 100 (105 ∷ 106 ∷ 150 ∷ [])))
updates-Within_example =
    updates-Within (105 ∷ 106 ∷ 150 ∷ []) clock (omega arith)
      (
        omega arith,
        omega arith,
        omega arith,
        (omega arith, omega arith, omega arith, (omega arith, omega arith, omega arith, tt)),
      )
      (omega arith)

two_errors : (updates clock (105 ∷ 106 ∷ 150 ∷ [])).error_count ≡ 2
unfolding updates update
two_errors = refl

-- a frame 40 seconds after the start, with frame number 3, and one 20 seconds after it
abbrev frame_at : ℕ → List ℕ
frame_at seconds = set (set (replicate 128 0) 76 seconds) 84 3

abbrev started : ValidCheck
started = record (new_valid_check 9) { init = true; initial_timing_system = 0 }

logged_later : (run 5 (frame_at 40) 1000 started >>= λ out. ok out.1) ≡ ok true
unfolding run pull_bit_field load word get_epics_seconds get_epics_nanoseconds get_syncword
    get_1hz_counter get_frame_counter update
logged_later = refl

quiet_first : run 5 (frame_at 20) 1000 started ≡ ok (started, false)
unfolding run pull_bit_field load word get_epics_seconds get_epics_nanoseconds get_syncword
    get_1hz_counter get_frame_counter update
quiet_first = refl
