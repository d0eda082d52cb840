-- ===== src/TestData/Ramp.antt =====
-- The ramp of modes 10 and 14 over a sequence of packets.
use smurf_processor.Prelude.{
  ℕ, ◌+◌, ◌-◌, ◌*◌, ◌%◌, ◌^◌, ◌<◌, ◌≡◌, ◌⊎◌, inl, inr, refl, ◌∙◌, ap, true, false, List, [], ◌∷◌,
  arith,
}
use smurf_processor.Prelude.Int.{ℤ, pos, signed}
use smurf_processor.TestData.{TestData, overwrite, ramp, gen_test_mce_data}

-- The state behind a sequence of packets, each with its mode, sync word, parameter and samples
unfoldable pub after_packets : List (ℕ × ℕ × ℕ × List ℤ) → TestData → TestData
after_packets [] t = t
after_packets ((mode, sync, param, input) ∷ packets) t =
    after_packets packets (gen_test_mce_data input mode sync param t).0

kept :
    (packets : List (ℕ × ℕ × ℕ × List ℤ)) (t : TestData)
    → t.init ≡ true
    → after_packets packets t ≡ t
unfolding after_packets gen_test_mce_data
kept [] t started = refl
kept ((mode, sync, param, input) ∷ packets) t started =
    ap (after_packets packets) (ground (arith, started)) ∙ kept packets t started

first_call :
    (mode first param : ℕ) (input : List ℤ) (t : TestData)
    → t.init ≡ false
    → (gen_test_mce_data input mode first param t).0
      ≡ record t { init = true; initial_sync = first }
unfolding gen_test_mce_data
first_call mode first param input t fresh = ground (arith, fresh)

ramp_value :
    (first k param : ℕ) (t : TestData)
    → first + k < 2 ^ 32
    → param * k < 2 ^ 31
    → ramp param (first + k) (record t { init = true; initial_sync = first }) ≡ pos (param * k)
ramp_value first k param t top small =
    let difference : (first + k + 2 ^ 32 - first) % 2 ^ 32 ≡ k = omega arith in
    let product : param * ((first + k + 2 ^ 32 - first) % 2 ^ 32) % 2 ^ 32 ≡ param * k =
      ap (λ d. param * d % 2 ^ 32) difference ∙ omega arith in
    ap (signed 32) product ∙ ground arith

ramped_call :
    (mode sync param : ℕ) (input : List ℤ) (t : TestData)
    → t.init ≡ true
    → (mode ≡ 10) ⊎ (mode ≡ 14)
    → (gen_test_mce_data input mode sync param t).1
      ≡ overwrite t.mce_samples 0 (λ j. ramp param sync t) input
unfolding gen_test_mce_data
ramped_call mode sync param input t started (inl e) = rw (e, started) refl
ramped_call mode sync param input t started (inr e) = rw (e, started) refl

-- Once a first packet was made, in whatever mode, at the sync word `first`, a packet in mode 10 or 14 at the
-- sync word `first + k` has the sample `param * k` in each of the `mce_samples` channels, if
-- this product is below 2 ^ 31, whatever packets are made in between.
ramp_lem :
    (mode₀ first param₀ : ℕ) (input₀ : List ℤ) (packets : List (ℕ × ℕ × ℕ × List ℤ)) (t : TestData)
    (mode k param : ℕ) (input : List ℤ)
    → t.init ≡ false
    → (mode ≡ 10) ⊎ (mode ≡ 14)
    → first + k < 2 ^ 32
    → param * k < 2 ^ 31
    → (gen_test_mce_data input mode
        (first + k)
        param
        (after_packets ((mode₀, first, param₀, input₀) ∷ packets) t)).1
      ≡ overwrite t.mce_samples 0 (λ j. pos (param * k)) input
unfolding after_packets
ramp_lem mode₀ first param₀ input₀ packets t mode k param input fresh ramped top small =
    let started : TestData = record t { init = true; initial_sync = first } in
    let state : after_packets packets (gen_test_mce_data input₀ mode₀ first param₀ t).0 ≡ started =
      ap (after_packets packets) (first_call mode₀ first param₀ input₀ t fresh)
      ∙ kept packets started refl in
    ap (λ s. (gen_test_mce_data input mode (first + k) param s).1) state
    ∙ ramped_call mode (first + k) param input started refl ramped
    ∙ ap (λ l. overwrite t.mce_samples 0 (λ j. l) input) (ramp_value first k param t top small)
