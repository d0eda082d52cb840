-- ===== src/TestData/Lengths.antt =====
-- The generated data have the number of the samples they replace.
use smurf_processor.Prelude.{
  ℕ, zero, suc, ◌+◌, ◌%◌, ◌^◌, ◌≡◌, refl, ap, ◌==◌, if◌then◌else◌, Bool, Bool-cases, inl, inr, List,
  [], ◌∷◌, length,
}
use smurf_processor.Prelude.Int.{ℤ, pos, signed}
use smurf_processor.TestData.{
  TestData, overwrite, square_level, gen_test_smurf_data, ramp, initialised, gen_test_mce_data,
}

length-overwrite {ℓ} :
    {A : Type ℓ} (k j : ℕ) (f : ℕ → A) (xs : List A) → length (overwrite k j f xs) ≡ length xs
length-overwrite zero j f xs = refl
length-overwrite (suc k) j f [] = refl
length-overwrite (suc k) j f (x ∷ xs) = ap suc (length-overwrite k (suc j) f xs)

-- Either of two results has the input's number of samples.
either :
    (c : Bool) (r r' : TestData × List ℤ) (n : ℕ)
    → length r.1 ≡ n
    → length r'.1 ≡ n
    → length (if c then r else r').1 ≡ n
either c r r' n h h' = elim (Bool-cases c) [ inl e ↦ rw e h | inr e ↦ rw e h' ]

pub length-gen_test_smurf_data :
    (random : ℕ → ℤ) (sine : ℕ → ℕ → ℤ) (input : List ℤ) (mode sync param : ℕ) (t : TestData)
    → length (gen_test_smurf_data random sine input mode sync param t).1 ≡ length input
unfolding gen_test_smurf_data
length-gen_test_smurf_data random sine input mode sync param t =
    let n = t.smurf_samples in
    let k = length input in
    let over = λ (f : ℕ → ℤ). length-overwrite n 0 f input in
    either (mode == 1) _ _ k (over λ j. pos 0) (
      either (mode == 2) _ _ k (over λ j. signed 16 j) (
        either (mode == 3) _ _ k (over λ j. square_level t.toggle) (
          either (mode == 4) _ _ k (over random)
            (either (mode == 5) _ _ k (over λ j. sine ((t.counter16 + 1) % 2 ^ 16) param) refl))))

pub length-gen_test_mce_data :
    (input : List ℤ) (mode sync param : ℕ) (t : TestData)
    → length (gen_test_mce_data input mode sync param t).1 ≡ length input
unfolding gen_test_mce_data
length-gen_test_mce_data input mode sync param t =
    let t' = initialised sync t in
    let n = t'.mce_samples in
    let k = length input in
    let over = λ (f : ℕ → ℤ). length-overwrite n 0 f input in
    either (mode == 8) _ _ k (over λ j. pos 0) (
      either (mode == 9) _ _ k (over λ j. signed 32 j) (
        either (mode == 10) _ _ k (over λ j. ramp param sync t') (
          either (mode == 14) _ _ k (over λ j. ramp param sync t')
            (either (mode == 15) _ _ k (over λ j. pos 10000000) refl))))
