-- ===== src/Header/Averaging.antt =====
-- `average_control` over a sequence of frames: when an average is complete, and of how many frames.
use smurf_processor.Prelude.{
  ℕ, zero, suc, ◌+◌, ◌%◌, ◌^◌, ◌≤◌, ◌<◌, ◌≡◌, ◌≢◌, refl, sym, ◌∙◌, ap, ◌⊎◌, inl, inr, ◌↔◌, ◌==◌,
  if◌then◌else◌, Bool-cases, List, [], ◌∷◌, Result, ok, ◌>>=◌, arith, length, get_or, All,
}
use smurf_processor.Prelude.Int.{ℤ, unsigned, unsigned32-lt}
use smurf_processor.Prelude.Bytes.{IsBytes, word, word-lt}
use native.Mathlib.Nat.{add-mod_left, mod_self, mod-eq_of_lt}
use smurf_processor.Prelude.Masks.{and_mask}
use smurf_processor.Header.{
  Header, get_syncword, get_ext_counter, count_frame, local_end, external_end, average_control,
}
use smurf_processor.Header.Fields.{pull_bit_field_lem}

-- A frame's bytes, with room for a header.
abbrev pub IsFrame : List ℕ → Type 0
IsFrame h = IsBytes h × (128 ≤ length h)

-- The sync word of a frame
abbrev pub sync_of : List ℕ → ℕ
sync_of h = word 5 h 96 % 2 ^ 32

abbrev finish : ℕ → List ℕ → Header → Header × ℕ
finish n h s = if n == 0 then external_end (word 4 h 68) s else local_end n s

module _ (junk : ℕ) (h : List ℕ) (frame : IsFrame h) where
  pub get_syncword_read : get_syncword junk h ≡ ok (sync_of h)
  unfolding get_syncword
  get_syncword_read =
      rw ((pull_bit_field_lem junk h 96 5 frame.0 (omega (arith, frame.1))).0 (omega arith))
        (ap ok (and_mask 32 (word 5 h 96)))

  get_ext_counter_read : get_ext_counter junk h ≡ ok (word 4 h 68)
  unfolding get_ext_counter
  get_ext_counter_read =
      rw ((pull_bit_field_lem junk h 68 4 frame.0 (omega (arith, frame.1))).0 (omega arith))
        (ap ok (omega (arith, word-lt 4 h 68 frame.0)))

  pub runs :
      (time : ℕ × ℕ) (s : Header) (num : ℤ)
      → average_control junk h time s num
        ≡ ok (finish (unsigned 32 num) h (count_frame time (sync_of h) s))
  unfolding average_control
  runs time s num = ground (arith, get_syncword_read, get_ext_counter_read)

-- The frame ends an average: the number set here is reached, or it is zero and the sync word has changed.
abbrev pub Completes : Header → List ℕ → ℤ → Type 0
Completes s h num =
    ((unsigned 32 num ≢ 0) × (s.average_counter + 1 ≡ unsigned 32 num))
    ⊎ ((unsigned 32 num ≡ 0) × (sync_of h ≢ s.last_syncword))

-- Below the counter's wrap-around `average_control` succeeds on every frame, and what it returns and the new
-- counter add up to the frames counted, this one included: it returns all of them when the
-- frame completes an average, and otherwise zero. It keeps the frame's sync word.
pub average_control_lem :
    (junk : ℕ) (h : List ℕ) (time : ℕ × ℕ) (s : Header) (num : ℤ)
    → IsFrame h
    → s.average_counter + 1 < 2 ^ 32
    → s.last_syncword < 2 ^ 32
    → (s' : Header) × (n : ℕ) × (average_control junk h time s num ≡ ok (s', n))
      × (n + s'.average_counter ≡ s.average_counter + 1)
      × ((n ≢ 0) ↔ Completes s h num)
      × (s'.last_syncword ≡ sync_of h)
      × ((n ≡ 0) ⊎ (s'.average_counter ≡ 0))
average_control_lem junk h time s num frame small synced =
    let out = finish (unsigned 32 num) h (count_frame time (sync_of h) s) in
    (
      out.0,
      out.1,
      runs junk h frame time s num,
      ground arith,
      (λ p. ground arith, λ c. ground arith),
      ground arith,
      ground arith,
    )

-- What `average_control` returns over a sequence of frames, with the time of each.
unfoldable pub run_frames : ℕ → ℤ → Header → List ((ℕ × ℕ) × List ℕ) → Result (Header × List ℕ)
run_frames junk num s [] = ok (s, [])
run_frames junk num s ((time, h) ∷ frames) = average_control junk h time s num >>= λ out.
    run_frames junk num out.0 frames >>= λ rest. ok (rest.0, out.1 ∷ rest.1)

abbrev pub AllFrames : List ((ℕ × ℕ) × List ℕ) → Type 0
AllFrames [] = Unit
AllFrames ((time, h) ∷ frames) = IsFrame h × AllFrames frames

-- One frame where the number of averages is set here
local_step :
    (junk : ℕ) (num : ℤ) (s : Header) (time : ℕ × ℕ) (h : List ℕ)
    → IsFrame h
    → unsigned 32 num ≢ 0
    → s.average_counter + 1 < 2 ^ 32
    → (s' : Header) × (average_control junk h time s num
        ≡ ok (s', if s.average_counter + 1 == unsigned 32 num then unsigned 32 num else 0))
      × (s'.average_counter
          ≡ (if s.average_counter + 1 == unsigned 32 num then 0 else s.average_counter + 1))
local_step junk num s time h frame some small = (
  (finish (unsigned 32 num) h (count_frame time (sync_of h) s)).0,
  runs junk h frame time s num ∙ ap ok (ground arith),
  ground arith,
)

-- Which result of the sequence is `n`, from a counter of `c`
abbrev pub due : ℕ → ℕ → ℕ
due n k = if k % n == 0 then n else 0

wraps : (n c i : ℕ) → c + 1 ≡ n → (c + suc (suc i)) % n ≡ suc i % n
wraps n c i e = ap (λ t. t % n) (omega arith) ∙ add-mod_left n (suc i)

due_first : (n c : ℕ) → c < n → (if c + 1 == n then n else 0) ≡ due n (c + 1)
due_first n c h = elim (Bool-cases (c + 1 == n)) [
  | inl e ↦
      let last : (c + 1) % n ≡ 0 = ap (λ t. t % n) (ground arith) ∙ mod_self n in
      ground (arith, last)
  | inr e ↦ let early : (c + 1) % n ≡ c + 1 = mod-eq_of_lt (ground arith) in ground (arith, early)
]

shift :
    (n c c₁ len : ℕ) (results : List ℕ) (i : ℕ)
    → (if c + 1 == n then n else 0) ≡ due n (c + 1)
    → (c₁ ≡ c + 1) ⊎ ((c + 1 ≡ n) × (c₁ ≡ 0))
    → ((i : ℕ) → i < len → get_or results i 0 ≡ due n (c₁ + suc i))
    → i < suc len
    → get_or ((if c + 1 == n then n else 0) ∷ results) i 0 ≡ due n (c + suc i)
shift n c c₁ len results zero first next each lt = first ∙ ap (due n) (omega arith)
shift n c c₁ len results (suc i) first (inl e) each lt =
    each i (omega arith) ∙ ap (due n) (omega arith)
shift n c c₁ len results (suc i) first (inr e) each lt =
    each i (omega arith)
    ∙ ap (λ k. if k == 0 then n else 0) (ap (λ k. k % n) (omega arith) ∙ sym (wraps n c i e.0))

-- With a number of averages `n` set here, from a counter `c` below it, a sequence of frames gives no
-- error, and the `i`-th result (from zero) is `n` if `c + i + 1` is a multiple of `n`, and zero otherwise:
-- every `n`-th frame completes an average of `n` frames.
pub run_frames_periodic :
    (junk : ℕ) (num : ℤ) (s : Header) (frames : List ((ℕ × ℕ) × List ℕ))
    → AllFrames frames
    → s.average_counter < unsigned 32 num
    → (s' : Header) × (results : List ℕ) × (run_frames junk num s frames ≡ ok (s', results))
      × (length results ≡ length frames)
      × ((i : ℕ)
          → i < length frames
          → get_or results i 0 ≡ due (unsigned 32 num) (s.average_counter + suc i))
unfolding run_frames
run_frames_periodic junk num s [] all below = (s, [], refl, refl, λ i lt. absurd (omega arith))
run_frames_periodic junk num s ((time, h) ∷ frames) all below =
    let top = unsigned32-lt num in
    let n = unsigned 32 num in
    let c = s.average_counter in
    let (s₁, e₁, count) = local_step junk num s time h all.0 (omega arith) (omega arith) in
    let (s', results, e, same, each) =
      run_frames_periodic junk num s₁ frames all.1 (ground (arith, count)) in
    (
      s',
      (if c + 1 == n then n else 0) ∷ results,
      rw (e₁, e),
      ap suc same,
      λ i.
          shift n c s₁.average_counter (length frames) results i (due_first n c below)
            (ground (arith, count)) each,
    )

-- Where the counter has already passed the number set here, as after that number is lowered, no frame
-- completes an average before the counter wraps around at 2 ^ 32: a sequence of frames gives zeros only.
pub run_frames_stalls :
    (junk : ℕ) (num : ℤ) (s : Header) (frames : List ((ℕ × ℕ) × List ℕ))
    → AllFrames frames
    → unsigned 32 num ≢ 0
    → unsigned 32 num ≤ s.average_counter
    → s.average_counter + length frames < 2 ^ 32
    → (s' : Header) × (results : List ℕ) × (run_frames junk num s frames ≡ ok (s', results))
      × All (λ n. n ≡ 0) results
      × (s'.average_counter ≡ s.average_counter + length frames)
unfolding run_frames
run_frames_stalls junk num s [] all some above small = (s, [], refl, tt, omega arith)
run_frames_stalls junk num s ((time, h) ∷ frames) all some above small =
    let (s₁, e₁, count) = local_step junk num s time h all.0 some (omega arith) in
    let later : s₁.average_counter ≡ s.average_counter + 1 = ground (arith, count) in
    let (s', results, e, zeros, end) =
      run_frames_stalls junk num s₁ frames all.1 some (omega (arith, later))
        (omega (arith, later)) in
    (
      s',
      (if s.average_counter + 1 == unsigned 32 num then unsigned 32 num else 0) ∷ results,
      rw (e₁, e),
      (ground arith, zeros),
      omega (arith, end, later),
    )
