-- ===== src/Unwrap/Track.antt =====
-- The unwrapped samples of one channel against the signal that the wrapped ones come from.
use smurf_processor.Prelude.{ℕ, ◌+◌, ◌-◌, ◌%◌, ◌^◌, ◌≤◌, ◌<◌, ◌≡◌, refl, ◌⊎◌, inl, inr, ok, arith}
use smurf_processor.Prelude.Int.{
  ℤ, pos, negsuc, ◌+ℤ◌, ◌-ℤ◌, pos_part, neg_part, signed, unsigned, +ℤ_parts, -ℤ_parts, eq_of_parts,
}
use smurf_processor.Unwrap.{unwrap, unwrap_sample}

-- The 16-bit sample of a signal's value
abbrev pub sample : ℤ → ℤ
sample t = signed 16 (unsigned 16 t)

-- Two values of a signal at most 8191 apart
abbrev pub IsNear : ℤ → ℤ → Type 0
IsNear s t =
    (pos_part s + neg_part t ≤ pos_part t + neg_part s + 8191)
    × (pos_part t + neg_part s ≤ pos_part s + neg_part t + 8191)

-- A value that is a whole wrap away from overflow
abbrev pub IsSmall : ℤ → Type 0
IsSmall t = (pos_part t < 2 ^ 31 - 2 ^ 17) × (neg_part t < 2 ^ 31 - 2 ^ 17)

-- The sample is the value modulo the wrap.
sample_offset :
    (t : ℤ)
    → neg_part t < 2 ^ 31
    → pos_part (sample t) + 32768
      ≡ (pos_part t + 2 ^ 32 - neg_part t + 32768) % 65536 + neg_part (sample t)
sample_offset (pos n) h = ground arith
sample_offset (negsuc n) h = ground arith

-- `w` turns the sample of `t` into `t`.
abbrev pub Tracks : ℤ → ℤ → Type 0
Tracks w t =
    pos_part w + pos_part (sample t) + neg_part t ≡ neg_part w + neg_part (sample t) + pos_part t

-- How far the residues of two near numbers are apart: none, or a wrap with both beyond the limits
apart :
    (a b a' b' : ℕ)
    → a ≤ b + 8191
    → b ≤ a + 8191
    → a' ≡ a % 65536
    → b' ≡ b % 65536
    → (a' + b ≡ a + b')
      ⊎ ((a' + b ≡ a + b' + 65536) × (57344 < a') × (b' < 8192))
      ⊎ ((a' + b + 65536 ≡ a + b') × (57344 < b') × (a' < 8192))
apart a b a' b' h h' e e' = ground arith

-- The wrap counter that turned the last sample into its value turns this one into its own.
unwrap_lem :
    (w d p s t : ℤ)
    → pos_part d + 32768 ≡ (pos_part t + 2 ^ 32 - neg_part t + 32768) % 65536 + neg_part d
    → pos_part p + 32768 ≡ (pos_part s + 2 ^ 32 - neg_part s + 32768) % 65536 + neg_part p
    → IsNear s t
    → IsSmall s
    → IsSmall t
    → pos_part w + pos_part p + neg_part s ≡ neg_part w + neg_part p + pos_part s
    → (w' : ℤ) × (unwrap w d p ≡ ok w')
      × (pos_part w' + pos_part d + neg_part t ≡ neg_part w' + neg_part d + pos_part t)
unfolding unwrap
unwrap_lem w d p s t hd hp near small small' tracks =
    elim (apart (pos_part t + 2 ^ 32 - neg_part t + 32768)
      (pos_part s + 2 ^ 32 - neg_part s + 32768)
      ((pos_part t + 2 ^ 32 - neg_part t + 32768) % 65536)
      ((pos_part s + 2 ^ 32 - neg_part s + 32768) % 65536) (omega arith) (omega arith) refl refl) [
        | inl e ↦ (w, ground arith, omega arith)
        | inr (inl e) ↦ (
          w -ℤ pos 65536,
          ground (arith, -ℤ_parts w (pos 65536)),
          omega (arith, -ℤ_parts w (pos 65536)),
        )
        | inr (inr e) ↦ (
          w +ℤ pos 65536,
          ground (arith, +ℤ_parts w (pos 65536)),
          omega (arith, +ℤ_parts w (pos 65536)),
        )
      ]

-- One round gives the value itself.
pub unwrap_sample-Tracks :
    (w s t : ℤ)
    → IsNear s t
    → IsSmall s
    → IsSmall t
    → Tracks w s
    → (w' : ℤ) × (unwrap_sample w (sample t) (sample s) ≡ ok (w', t)) × Tracks w' t
unfolding unwrap_sample
unwrap_sample-Tracks w s t near small small' tracks =
    let (w', e, tracks') =
      unwrap_lem w (sample t) (sample s) s t (sample_offset t (omega arith))
        (sample_offset s (omega arith)) near small small' tracks in
    let value : sample t +ℤ w' ≡ t =
      eq_of_parts (sample t +ℤ w') t (omega (arith, +ℤ_parts (sample t) w', tracks')) in
    (w', rw (e, value) (ground arith), tracks')
