-- ===== src/Unwrap/Tests.antt =====
-- The unwrapping loop on concrete frames: a ramp that wraps up, and back.
use smurf_processor.Prelude.{
  ◌≡◌, refl, List, [], ◌∷◌, map, ok, arith, length, All, tabulate, length-tabulate,
  get_or-tabulate_every,
}
use smurf_processor.Prelude.Int.{ℤ, pos, negsuc, signed, IsSigned, signed-IsSigned, ◌+ℤ◌, ◌-ℤ◌}
use smurf_processor.Unwrap.{unwrap, unwrap_sample, unwrap_samples}
use smurf_processor.Unwrap.Track.{sample}
use smurf_processor.Unwrap.Bounds.{IsWithin, unwrap_samples-IsWithin}
use smurf_processor.Unwrap.Channels.{
  InStep, none_left, one_more, MovesAll, pick, samples, unwrap_frames, unwrap_frames-pick,
}

abbrev start : List ℤ
start = pos 32000 ∷ negsuc 30000 ∷ []

abbrev later : List (List ℤ)
later = (pos 35000 ∷ negsuc 34000 ∷ []) ∷ (pos 32000 ∷ negsuc 38000 ∷ []) ∷ []

wrapped : map samples later ≡ (negsuc 30535 ∷ pos 31535 ∷ []) ∷ (pos 32000 ∷ pos 27535 ∷ []) ∷ []
wrapped = refl

both_channels :
    unwrap_frames (1 ∷ 0 ∷ []) (pos 0 ∷ pos 0 ∷ []) (pos 0 ∷ pos 0 ∷ []) start (map samples later)
    ≡ ok ((negsuc 34000 ∷ pos 35000 ∷ []) ∷ (negsuc 38000 ∷ pos 32000 ∷ []) ∷ [])
unfolding unwrap_frames unwrap_samples unwrap_sample unwrap ◌+ℤ◌ ◌-ℤ◌
both_channels = refl

-- a step of 8192 from the wrong place is taken for a wrap of the other kind, or for none
lost_wrap :
    unwrap_sample (pos 0) (sample (pos 32768)) (sample (pos 24576)) ≡ ok (pos 0, negsuc 32767)
unfolding unwrap_sample unwrap ◌+ℤ◌
lost_wrap = refl

start-InStep : InStep start (1 ∷ 0 ∷ []) (pos 0 ∷ pos 0 ∷ []) (pos 0 ∷ pos 0 ∷ [])
start-InStep =
    one_more 1 (0 ∷ []) (pos 0) (pos 0 ∷ []) (pos 0) (pos 0 ∷ []) (omega arith) (omega arith)
      (omega arith)
      (one_more 0 [] (pos 0) [] (pos 0) [] (omega arith) (omega arith) (omega arith) none_left)

start-MovesAll : MovesAll (1 ∷ 0 ∷ []) start later
start-MovesAll = search (refl, arith)

unwrap_frames-pick_example :
    unwrap_frames
      (1 ∷ 0 ∷ [])
      (pos 0 ∷ pos 0 ∷ [])
      (pos 0 ∷ pos 0 ∷ [])
      (samples start)
      (map samples later)
    ≡ ok (map (λ t. pick t (1 ∷ 0 ∷ [])) later)
unwrap_frames-pick_example =
    unwrap_frames-pick later (1 ∷ 0 ∷ []) (pos 0 ∷ pos 0 ∷ []) (pos 0 ∷ pos 0 ∷ []) start
      start-InStep start-MovesAll

abbrev high : List ℤ
high = tabulate 4096 0 (λ j. signed 16 30000)

abbrev low : List ℤ
low = tabulate 4096 0 (λ j. signed 16 40000)

unwrap_samples-IsWithin_example :
    (wraps' : List ℤ) × (inputs' : List ℤ) × (unwrap_samples 1 high low
        (7 ∷ [])
        (pos 65536 ∷ [])
        (pos 0 ∷ [])
      ≡ ok (wraps', inputs'))
    × All (IsWithin 2) wraps'
    × (length wraps' ≡ 1)
    × (length inputs' ≡ 1)
unwrap_samples-IsWithin_example =
    unwrap_samples-IsWithin 1 1 high low (7 ∷ []) (pos 65536 ∷ []) (pos 0 ∷ []) (omega arith)
      (λ i.
        get_or-tabulate_every (IsSigned 16) 4096 0 i (λ j. signed 16 30000) (pos 0)
          (λ j. signed-IsSigned 30000) (signed-IsSigned 0))
      (length-tabulate 4096 0 (λ j. signed 16 30000))
      (length-tabulate 4096 0 (λ j. signed 16 40000)) (omega arith, tt)
      ((omega arith, omega arith), tt) (omega arith) (omega arith) (omega arith)
