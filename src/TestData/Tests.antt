-- ===== src/TestData/Tests.antt =====
-- The generated data on concrete calls.
use smurf_processor.Prelude.{
  ℕ, ◌+◌, ◌-◌, ◌/◌, ◌%◌, ◌≡◌, inl, inr, refl, ◌==◌, if◌then◌else◌, List, [], ◌∷◌, map, replicate,
  arith,
}
use smurf_processor.Prelude.Int.{ℤ, pos, negsuc}
use smurf_processor.TestData.{TestData, new_test_data, overwrite, gen_test_smurf_data}
use smurf_processor.TestData.Square.{last_sync, after_frames, square_wave}

abbrev fresh : TestData
fresh = new_test_data 2 3

abbrev flat : ℕ → ℕ → ℤ
flat count param = pos count

channels :
    (gen_test_smurf_data pos flat (replicate 3 (pos 9)) 2 0 0 fresh).1 ≡ pos 0 ∷ pos 1 ∷ pos 9 ∷ []
unfolding gen_test_smurf_data
channels = refl

abbrev around : List (ℕ × List ℤ)
around = (998, []) ∷ (999, []) ∷ (1000, []) ∷ (1000, []) ∷ []

square_wave_example :
    (gen_test_smurf_data pos flat
      (replicate 3 (pos 9))
      3
      1001
      0
      (after_frames pos flat 0 around fresh)).1
    ≡ overwrite 2 0
        (λ j.
          if (0 + (last_sync 998 (map (λ f. f.0) around) / 1000 - 998 / 1000)) % 2 == 0
          then negsuc 19999
          else pos 20000)
        (replicate 3 (pos 9))
square_wave_example =
    square_wave pos flat 0 around 998 1001 (replicate 3 (pos 9)) fresh
      (omega arith, omega arith, λ m. omega arith)
      (inl refl, (inr refl, (inr refl, (inl refl, tt))))
