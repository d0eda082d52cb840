-- ===== src/Unwrap/Channels.antt =====
-- The unwrapping of a sequence of frames, in every channel of the mask.
use smurf_processor.Prelude.{
  ℕ, zero, suc, ◌≤◌, ◌<◌, ◌≡◌, refl, ap, List, [], ◌∷◌, map, Result, ok, ◌>>=◌, arith, length,
  replicate, length-map, get_or, All, lt→ltb, le→ltb,
}
use smurf_processor.Prelude.Int.{ℤ, pos}
use smurf_processor.Unwrap.{unwrap_samples, mask_values, smurf_raw_samples}
use smurf_processor.Unwrap.Track.{sample, IsNear, IsSmall, Tracks, unwrap_sample-Tracks}

-- A channel's value, and those of a mask's channels
abbrev pub value : List ℤ → ℕ → ℤ
value s m = get_or s m (pos 0)

abbrev pub pick : List ℤ → List ℕ → List ℤ
pick s mask = map (value s) mask

-- The samples of a frame whose raw channels have these values
abbrev pub samples : List ℤ → List ℤ
samples s = map sample s

-- Each channel of the mask is one of the frame's, and its wrap counter turns its sample into its value.
pub data InStep (s : List ℤ) : List ℕ → List ℤ → List ℤ → Type 0 where
  none_left : InStep s [] [] []
  one_more :
      (m : ℕ) (mask : List ℕ) (w : ℤ) (wraps : List ℤ) (x : ℤ) (inputs : List ℤ)
      → m < 4096
      → m < length s
      → Tracks w (value s m)
      → InStep s mask wraps inputs
      → InStep s (m ∷ mask) (w ∷ wraps) (x ∷ inputs)

-- From one frame to the next the channels of the mask move by at most 8191, a wrap away from overflow.
abbrev pub Moves : List ℕ → List ℤ → List ℤ → Type 0
Moves mask s t =
    (length t ≡ length s)
    × All (λ m. IsNear (value s m) (value t m) × IsSmall (value s m) × IsSmall (value t m)) mask

value-map : (s : List ℤ) (m : ℕ) → value (samples s) m ≡ sample (value s m)
value-map [] m = refl
value-map (x ∷ s) zero = refl
value-map (x ∷ s) (suc m) = value-map s m

-- One frame gives the values of its channels, and stays in step.
pub frame_step :
    (s t : List ℤ) {mask : List ℕ} {wraps inputs : List ℤ}
    → InStep s mask wraps inputs
    → Moves mask s t
    → (wraps' : List ℤ) × (unwrap_samples (length mask) (samples t) (samples s) mask wraps inputs
        ≡ ok (wraps', pick t mask))
      × InStep t mask wraps' (pick t mask)
unfolding unwrap_samples
frame_step s t none_left moves = ([], refl, none_left)
frame_step s t (one_more m mask w wraps x inputs raw room tracks rest) moves =
    let (w', e, tracks') =
      unwrap_sample-Tracks w (value s m) (value t m) moves.1.0.0 moves.1.0.1 moves.1.0.2 tracks in
    let (wraps', e', rest') = frame_step s t rest (moves.0, moves.1.1) in
    (
      w' ∷ wraps',
      rw
          (
            le→ltb 4095 m (omega arith),
            length-map sample s,
            length-map sample t,
            lt→ltb m (length s) room,
            lt→ltb m (length t) (omega (arith, moves.0)),
            value-map s m,
            value-map t m,
            e,
            e',
          )
          refl,
      one_more m mask w' wraps' (value t m) (pick t mask) raw (omega (arith, moves.0)) tracks'
          rest',
    )

-- The loop over a sequence of frames of which none is discarded: the input samples of each, from the
-- wrap counters, the input samples and the raw samples before the first. The frame before is the
-- last one's buffer.
unfoldable pub unwrap_frames :
    List ℕ → List ℤ → List ℤ → List ℤ → List (List ℤ) → Result (List (List ℤ))
unwrap_frames mask wraps inputs p [] = ok []
unwrap_frames mask wraps inputs p (d ∷ frames) =
    unwrap_samples (length mask) d p mask wraps inputs >>= λ out.
    unwrap_frames mask out.0 out.1 d frames >>= λ rest. ok (out.1 ∷ rest)

abbrev pub MovesAll : List ℕ → List ℤ → List (List ℤ) → Type 0
MovesAll mask s [] = Unit
MovesAll mask s (t ∷ ts) = Moves mask s t × MovesAll mask t ts

-- If in every channel of the mask the signal moves by at most 8191 from frame to frame, the loop recovers
-- the signal from its 16-bit samples: it succeeds, and the input samples of each frame are the signal's
-- values in the channels of the mask, in the mask's order.
pub unwrap_frames-pick :
    (ts : List (List ℤ)) (mask : List ℕ) (wraps inputs s : List ℤ)
    → InStep s mask wraps inputs
    → MovesAll mask s ts
    → unwrap_frames mask wraps inputs (samples s) (map samples ts) ≡ ok (map (λ t. pick t mask) ts)
unfolding unwrap_frames
unwrap_frames-pick [] mask wraps inputs s step moves = refl
unwrap_frames-pick (t ∷ ts) mask wraps inputs s step moves =
    let (wraps', e, step') = frame_step s t step moves.0 in
    rw (e, unwrap_frames-pick ts mask wraps' (pick t mask) t step' moves.1) refl

-- A mask that `read_mask` has filled from a mask of channels in range has channels in range only, so no
-- bad mask ends the unwrapping loop.
pub mask_values-All :
    (mask values : List ℕ)
    → All (λ m. m < smurf_raw_samples) mask
    → All (λ m. m < smurf_raw_samples) (mask_values mask values)
      × (length (mask_values mask values) ≡ length mask)
unfolding mask_values
mask_values-All [] values all = (tt, refl)
mask_values-All (m ∷ mask) [] all = (all, refl)
mask_values-All (old ∷ mask) (m ∷ values) all =
    let rest = mask_values-All mask values all.1 in ((ground arith, rest.0), ap suc rest.1)

-- Before the first frame, with all wrap counters and input samples zero, the channels of such a mask
-- are in step with any values of 16 bits.
pub new-InStep :
    (s : List ℤ) (mask : List ℕ)
    → All (λ m. m < smurf_raw_samples) mask
    → smurf_raw_samples ≤ length s
    → All (λ m. sample (value s m) ≡ value s m) mask
    → InStep s mask (replicate (length mask) (pos 0)) (replicate (length mask) (pos 0))
new-InStep s [] all room same = none_left
new-InStep s (m ∷ mask) all room same =
    one_more m mask (pos 0) (replicate (length mask) (pos 0)) (pos 0)
      (replicate (length mask) (pos 0)) all.0 (omega (arith, all.0)) (rw same.0 (omega arith))
      (new-InStep s mask all.1 room same.1)
