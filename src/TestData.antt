-- ===== src/TestData.antt =====
-- `SmurfTestData` of include/smurftcp.h and src/smurf_processor.cpp: the generated data of the test modes.
-- The two values that are computed in type double are parameters: `random` gives the sample made of
-- the `j`-th number of `rand` in a call, and `sine` the one for a counter and a parameter. The arrays have
-- the lengths that the constructor was given.
pub mod Square
pub mod Ramp
pub mod Lengths
mod Tests
use smurf_processor.Prelude.{
  ℕ, zero, suc, ◌+◌, ◌-◌, ◌*◌, ◌/◌, ◌%◌, ◌^◌, ◌==◌, if◌then◌else◌, Bool, true, false, not, ◌&&◌,
  List, [], ◌∷◌, replicate,
}
use smurf_processor.Prelude.Int.{ℤ, pos, signed}

abbrev pub square_wave_amplitude : ℕ
square_wave_amplitude = 20000

abbrev pub square_wave_cycles : ℕ
square_wave_cycles = 1000

-- The time of the forced delay is not kept.
pub record TestData : Type 0 where
  pub smurf_samples : ℕ
  pub mce_samples : ℕ
  pub counter : ℕ
  pub toggle : ℕ
  pub counter16 : ℕ
  pub initial_sync : ℕ
  pub init : Bool

abbrev pub new_test_data : ℕ → ℕ → TestData
new_test_data smurf_samples mce_samples = record {
  smurf_samples = smurf_samples;
  mce_samples = mce_samples;
  counter = 0;
  toggle = 0;
  counter16 = 0;
  initial_sync = 0;
  init = false;
}

-- The first `k` places of an array are overwritten by `f` of their index, from `j` on.
abbrev pub overwrite {ℓ} : {A : Type ℓ} → ℕ → ℕ → (ℕ → A) → List A → List A
overwrite zero j f xs = xs
overwrite (suc k) j f [] = []
overwrite (suc k) j f (x ∷ xs) = f j ∷ overwrite k (suc j) f xs

-- `2 * toggle * amplitude - amplitude`, of type uint, stored in 16 bits
abbrev pub square_level : ℕ → ℤ
square_level toggle =
    signed 16 ((2 * toggle * square_wave_amplitude + 2 ^ 32 - square_wave_amplitude) % 2 ^ 32)

-- The change of the square wave's level
unfoldable pub square_step : ℕ → TestData → TestData
square_step sync t =
    if not (t.counter == sync) && sync % square_wave_cycles == 0
    then record t { toggle = if t.toggle == 0 then 1 else 0; counter = sync }
    else t

-- `gen_test_smurf_data(input, mode, sync, param)`: the state and the input samples
unfoldable pub gen_test_smurf_data :
    (ℕ → ℤ) → (ℕ → ℕ → ℤ) → List ℤ → ℕ → ℕ → ℕ → TestData → TestData × List ℤ
gen_test_smurf_data random sine input mode sync param t =
    let n = t.smurf_samples in
    let count = (t.counter16 + 1) % 2 ^ 16 in
    if mode == 1
    then (t, overwrite n 0 (λ j. pos 0) input)
    else if mode == 2
    then (t, overwrite n 0 (λ j. signed 16 j) input)
    else if mode == 3
    then (square_step sync t, overwrite n 0 (λ j. square_level t.toggle) input)
    else if mode == 4
    then (t, overwrite n 0 random input)
    else if mode == 5
    then (record t { counter16 = count }, overwrite n 0 (λ j. sine count param) input)
    else (t, input)

-- `param * (sync - initial_sync)`, of type uint, stored in 32 bits
abbrev pub ramp : ℕ → ℕ → TestData → ℤ
ramp param sync t = signed 32 (param * ((sync + 2 ^ 32 - t.initial_sync) % 2 ^ 32) % 2 ^ 32)

-- The first call's sync word is kept.
abbrev pub initialised : ℕ → TestData → TestData
initialised sync t = if t.init then t else record t { init = true; initial_sync = sync }

-- `gen_test_mce_data(input, mode, sync, param)`, but for the delay of mode 15
unfoldable pub gen_test_mce_data : List ℤ → ℕ → ℕ → ℕ → TestData → TestData × List ℤ
gen_test_mce_data input mode sync param t₀ =
    let t = initialised sync t₀ in
    let n = t.mce_samples in
    if mode == 8
    then (t, overwrite n 0 (λ j. pos 0) input)
    else if mode == 9
    then (t, overwrite n 0 (λ j. signed 32 j) input)
    else if mode == 10
    then (t, overwrite n 0 (λ j. ramp param sync t) input)
    else if mode == 14
    then (t, overwrite n 0 (λ j. ramp param sync t) input)
    else if mode == 15
    then (t, overwrite n 0 (λ j. pos 10000000) input)
    else (t, input)
