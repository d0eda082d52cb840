-- ===== src/TestData/Square.antt =====
-- The square wave of mode 3 over a sequence of frames.
use smurf_processor.Prelude.{
  ℕ, zero, suc, ◌+◌, ◌-◌, ◌/◌, ◌%◌, ◌≤◌, ◌<◌, ◌≡◌, ◌≢◌, ◌⊎◌, inl, inr, refl, ◌∙◌, ap, ◌==◌,
  if◌then◌else◌, List, [], ◌∷◌, map, arith,
}
use smurf_processor.Prelude.Int.{ℤ, pos, negsuc}
use smurf_processor.TestData.{TestData, overwrite, square_level, square_step, gen_test_smurf_data}

-- The sync words of a sequence of frames: each is the one before, or the next.
abbrev pub Counts : ℕ → List ℕ → Type 0
Counts prev [] = Unit
Counts prev (sync ∷ syncs) = ((sync ≡ prev) ⊎ (sync ≡ prev + 1)) × Counts sync syncs

abbrev pub last_sync : ℕ → List ℕ → ℕ
last_sync prev [] = prev
last_sync prev (sync ∷ syncs) = last_sync sync syncs

-- The wave has taken the sync word `sync` into account: it changed at it if it is a multiple of 1000.
abbrev pub HasSeen : ℕ → TestData → Type 0
HasSeen sync t = (t.toggle < 2) × (t.counter ≤ sync) × ((sync % 1000 ≡ 0) → t.counter ≡ sync)

unfoldable pub square_steps : List ℕ → TestData → TestData
square_steps [] t = t
square_steps (sync ∷ syncs) t = square_steps syncs (square_step sync t)

one_step :
    (prev sync : ℕ) (t : TestData)
    → HasSeen prev t
    → (sync ≡ prev) ⊎ (sync ≡ prev + 1)
    → HasSeen sync (square_step sync t)
      × ((square_step sync t).toggle ≡ (t.toggle + (sync / 1000 - prev / 1000)) % 2)
unfolding square_step
one_step prev sync t seen (inl e) =
    let kept = seen.2 in
    ((ground arith, ground arith, λ m. ground (arith, kept)), ground (arith, kept))
one_step prev sync t seen (inr e) =
    let kept = seen.2 in
    let carry : (sync % 1000 ≡ 0) → sync / 1000 ≡ prev / 1000 + 1 = λ m. omega arith in
    let same : (sync % 1000 ≢ 0) → sync / 1000 ≡ prev / 1000 = λ m. omega arith in
    ((ground arith, ground arith, λ m. ground arith), ground (arith, carry, same))

monotone : (syncs : List ℕ) (prev : ℕ) → Counts prev syncs → prev ≤ last_sync prev syncs
monotone [] prev c = omega arith
monotone (sync ∷ syncs) prev c = let rest = monotone syncs sync c.1 in ground (arith, c.0, rest)

-- The level has changed once for each multiple of 1000 that the sync word has passed.
square_steps_lem :
    (syncs : List ℕ) (prev : ℕ) (t : TestData)
    → HasSeen prev t
    → Counts prev syncs
    → (square_steps syncs t).toggle ≡ (t.toggle + (last_sync prev syncs / 1000 - prev / 1000)) % 2
unfolding square_steps
square_steps_lem [] prev t seen c = omega arith
square_steps_lem (sync ∷ syncs) prev t seen c =
    let (seen', one) = one_step prev sync t seen c.0 in
    let rest = square_steps_lem syncs sync (square_step sync t) seen' c.1 in
    let up = monotone syncs sync c.1 in
    let near : prev ≤ sync = ground (arith, c.0) in omega (arith, one, rest, up, near)

square_steps_samples :
    (syncs : List ℕ) (t : TestData) → (square_steps syncs t).smurf_samples ≡ t.smurf_samples
unfolding square_steps square_step
square_steps_samples [] t = refl
square_steps_samples (sync ∷ syncs) t =
    square_steps_samples syncs (square_step sync t) ∙ ground arith

level_lem :
    (toggle : ℕ)
    → toggle < 2
    → square_level toggle ≡ (if toggle == 0 then negsuc 19999 else pos 20000)
level_lem zero h = refl
level_lem (suc zero) h = refl
level_lem (suc (suc n)) h = absurd (omega arith)

module _ (random : ℕ → ℤ) (sine : ℕ → ℕ → ℤ) (param : ℕ) where
  -- The state behind a sequence of frames in mode 3, each with its sync word
  unfoldable pub after_frames : List (ℕ × List ℤ) → TestData → TestData
  after_frames [] t = t
  after_frames ((sync, input) ∷ frames) t =
      after_frames frames (gen_test_smurf_data random sine input 3 sync param t).0

  after_frames-square_steps :
      (frames : List (ℕ × List ℤ)) (t : TestData)
      → after_frames frames t ≡ square_steps (map (λ f. f.0) frames) t
  unfolding after_frames square_steps gen_test_smurf_data
  after_frames-square_steps [] t = refl
  after_frames-square_steps ((sync, input) ∷ frames) t =
      after_frames-square_steps frames (square_step sync t)

  -- In mode 3, behind frames whose sync words are each the one before or the next, a frame's first
  -- `smurf_samples` samples are -20000 or 20000, and which of them has changed once for each multiple
  -- of 1000 that the sync word has passed: how often a sync word is repeated has no effect.
  pub square_wave :
      (frames : List (ℕ × List ℤ)) (prev sync : ℕ) (input : List ℤ) (t : TestData)
      → HasSeen prev t
      → Counts prev (map (λ f. f.0) frames)
      → (let passed = last_sync prev (map (λ f. f.0) frames) / 1000 - prev / 1000 in
          (gen_test_smurf_data random sine input 3 sync param (after_frames frames t)).1
          ≡ overwrite t.smurf_samples 0
              (λ j. if (t.toggle + passed) % 2 == 0 then negsuc 19999 else pos 20000)
              input)
  unfolding gen_test_smurf_data
  square_wave frames prev sync input t seen c =
      let syncs = map (λ (f : ℕ × List ℤ). f.0) frames in
      let e = after_frames-square_steps frames t in
      let passed = square_steps_lem syncs prev t seen c in
      ap (λ (u : TestData). overwrite u.smurf_samples 0 (λ j. square_level u.toggle) input) e
      ∙ ap (λ n. overwrite n 0 (λ j. square_level (square_steps syncs t).toggle) input)
          (square_steps_samples syncs t)
      ∙ ap (λ l. overwrite t.smurf_samples 0 (λ j. l) input)
          (ap square_level passed
            ∙ level_lem ((t.toggle + (last_sync prev syncs / 1000 - prev / 1000)) % 2)
                (omega arith))
