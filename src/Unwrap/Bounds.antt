-- ===== src/Unwrap/Bounds.antt =====
-- The wrap counters' growth, and the frames without an overflow.
use smurf_processor.Prelude.{
  ℕ, zero, suc, ◌+◌, ◌*◌, ◌^◌, ◌≤◌, ◌<◌, ◌≡◌, refl, ap, lt→ltb, le→ltb, Bool-cases, inl, inr, ◌&&◌,
  List, [], ◌∷◌, ok, arith, length, get_or, All,
}
use smurf_processor.Prelude.Int.{ℤ, pos, pos_part, neg_part, IsSigned, ◌+ℤ◌, ◌-ℤ◌, ltb_ℤ}
use smurf_processor.Unwrap.{
  int32, unwrap, unwrap_sample, unwrap_samples, upper_unwrap, lower_unwrap,
}

-- A wrap counter that is at most `k` wraps away from zero
abbrev pub IsWithin : ℕ → ℤ → Type 0
IsWithin k w = (pos_part w ≤ 65536 * k) × (neg_part w ≤ 65536 * k)

+ℤ_le :
    (a b : ℤ)
    → (pos_part (a +ℤ b) ≤ pos_part a + pos_part b) × (neg_part (a +ℤ b) ≤ neg_part a + neg_part b)
unfolding ◌+ℤ◌
+ℤ_le a b = (ground arith, ground arith)

-ℤ_le :
    (a b : ℤ)
    → (pos_part (a -ℤ b) ≤ pos_part a + neg_part b) × (neg_part (a -ℤ b) ≤ neg_part a + pos_part b)
unfolding ◌-ℤ◌
-ℤ_le a b = (ground arith, ground arith)

int32_in : (z : ℤ) → pos_part z < 2 ^ 31 → neg_part z ≤ 2 ^ 31 → int32 z ≡ ok z
int32_in z h h' = ground arith

one_wrap :
    (k : ℕ) (w d p : ℤ)
    → k < 32767
    → IsWithin k w
    → (w' : ℤ) × (unwrap w d p ≡ ok w') × IsWithin (k + 1) w'
unfolding unwrap
one_wrap k w d p few near = elim (Bool-cases (ltb_ℤ upper_unwrap d && ltb_ℤ p lower_unwrap)) [
  | inl e ↦
      let le = -ℤ_le w (pos 0x10000) in
      let w' = w -ℤ pos 0x10000 in
      (
        w',
        rw e (int32_in w' (omega (arith, le)) (omega (arith, le))),
        (omega (arith, le), omega (arith, le)),
      )
  | inr e ↦ elim (Bool-cases (ltb_ℤ d lower_unwrap && ltb_ℤ upper_unwrap p)) [
    | inl e' ↦
        let le = +ℤ_le w (pos 0x10000) in
        let w' = w +ℤ pos 0x10000 in
        (
          w',
          rw (e, e') (int32_in w' (omega (arith, le)) (omega (arith, le))),
          (omega (arith, le), omega (arith, le)),
        )
    | inr e' ↦ (w, rw (e, e') refl, (omega arith, omega arith))
  ]
]

one_sample :
    (k : ℕ) (w d p : ℤ)
    → k < 32767
    → IsWithin k w
    → IsSigned 16 d
    → (out : ℤ × ℤ) × (unwrap_sample w d p ≡ ok out) × IsWithin (k + 1) out.0
unfolding unwrap_sample
one_sample k w d p few near fits =
    let (w', e, near') = one_wrap k w d p few near in
    let le = +ℤ_le d w' in
    (
      (w', d +ℤ w'),
      rw (e, int32_in (d +ℤ w') (omega (arith, le, fits.below)) (omega (arith, le, fits.above)))
          refl,
      near',
    )

pub wider : (k : ℕ) (wraps : List ℤ) → All (IsWithin k) wraps → All (IsWithin (k + 1)) wraps
wider k [] all = tt
wider k (w ∷ wraps) all = ((omega (arith, all.0), omega (arith, all.0)), wider k wraps all.1)

-- For samples of 16 bits and a mask in range, wrap counters that are at most `k` wraps from zero, with `k` below
-- 32767, do not overflow: on arrays that are at least as long as the loop it succeeds, they are then at most `k + 1`
-- wraps from zero, and neither array changes its length.
pub unwrap_samples-IsWithin :
    (n k : ℕ) (d p : List ℤ) (mask : List ℕ) (wraps inputs : List ℤ)
    → k < 32767
    → ((i : ℕ) → IsSigned 16 (get_or d i (pos 0)))
    → length d ≡ 4096
    → length p ≡ 4096
    → All (λ m. m < 4096) mask
    → All (IsWithin k) wraps
    → n ≤ length mask
    → n ≤ length wraps
    → n ≤ length inputs
    → (wraps' : List ℤ) × (inputs' : List ℤ) × (unwrap_samples n d p mask wraps inputs
        ≡ ok (wraps', inputs'))
      × All (IsWithin (k + 1)) wraps'
      × (length wraps' ≡ length wraps)
      × (length inputs' ≡ length inputs)
unfolding unwrap_samples
unwrap_samples-IsWithin zero k d p mask wraps inputs few fits ld lp masked near lm lw li =
    (wraps, inputs, refl, wider k wraps near, refl, refl)
unwrap_samples-IsWithin (suc n) k d p [] wraps inputs few fits ld lp masked near lm lw li =
    absurd (omega (arith, lm))
unwrap_samples-IsWithin (suc n) k d p (m ∷ mask) [] inputs few fits ld lp masked near lm lw li =
    absurd (omega (arith, lw))
unwrap_samples-IsWithin (suc n) k d p (m ∷ mask) (w ∷ wraps) [] few fits ld lp masked near lm lw
      li =
    absurd (omega (arith, li))
unwrap_samples-IsWithin (suc n) k d p (m ∷ mask) (w ∷ wraps) (x ∷ inputs) few fits ld lp masked near
      lm lw li =
    let (out, e, near') =
      one_sample k w (get_or d m (pos 0)) (get_or p m (pos 0)) few near.0 (fits m) in
    let (wraps', inputs', e', all', same, same') =
      unwrap_samples-IsWithin n k d p mask wraps inputs few fits ld lp masked.1 near.1 (omega arith)
        (omega arith) (omega arith) in
    (
      out.0 ∷ wraps',
      out.1 ∷ inputs',
      rw
          (
            le→ltb 4095 m (omega (arith, masked.0)),
            lt→ltb m (length d) (omega (arith, masked.0, ld)),
            lt→ltb m (length p) (omega (arith, masked.0, lp)),
            e,
            e',
          )
          refl,
      (near', all'),
      ap suc same,
      ap suc same',
    )
