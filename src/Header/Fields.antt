-- ===== src/Header/Fields.antt =====
-- What `pull_bit_field` reads: the field and nothing of the uninitialised word.
use smurf_processor.Prelude.{
  ℕ, zero, suc, ◌+◌, ◌-◌, ◌*◌, ◌/◌, ◌%◌, ◌^◌, ◌≤◌, ◌<◌, ◌≡◌, refl, ◌∙◌, ap, bit_and, List, ok,
  fault, arith, length, lt→ltb, le→ltb,
}
use smurf_processor.Prelude.Bytes.{IsBytes, word, word-lt, load_in}
use native.Mathlib.Nat.{pow-suc, mod-mod, add-mul-mod_self_right, mod-eq_of_lt}
use native.Mathlib.Numerals.{towards_suc}
use smurf_processor.Prelude.Masks.{mask_and}
use smurf_processor.Header.{pull_bit_field}

two-pow-eight : (n : ℕ) → 2 ^ (n * 8) ≡ 256 ^ n
two-pow-eight zero = refl
two-pow-eight (suc n) =
    ap (λ k. 2 ^ k) (omega arith) ∙ eight (n * 8) ∙ omega (arith, two-pow-eight n, pow-suc 256 n)
  where
    eight : (m : ℕ) → 2 ^ (m + 8) ≡ 256 * 2 ^ m
    eight m = simp towards_suc (omega arith)

-- Masking with the ones of the field's width, twice, leaves its bytes.
masked :
    (w q width : ℕ)
    → w < 256 ^ width
    → bit_and (2 ^ (width * 8) - 1) (bit_and (2 ^ (width * 8) - 1) (w + q * 256 ^ width)) ≡ w
masked w q width h =
    mask_and (width * 8) _
    ∙ ap (λ x. x % 2 ^ (width * 8)) (mask_and (width * 8) (w + q * 256 ^ width))
    ∙ mod-mod (w + q * 256 ^ width) (2 ^ (width * 8))
    ∙ ap (λ m. (w + q * 256 ^ width) % m) (two-pow-eight width)
    ∙ add-mul-mod_self_right w q (256 ^ width)
    ∙ mod-eq_of_lt h

-- A field of less than eight bytes that lies in the buffer is read whole, whatever the local word held
-- before; a wider one is undefined.
pub pull_bit_field_lem :
    (junk : ℕ) (h : List ℕ) (offset width : ℕ)
    → IsBytes h
    → offset + width ≤ length h
    → (width < 8 → pull_bit_field junk h offset width ≡ ok (word width h offset))
      × (8 ≤ width → pull_bit_field junk h offset width ≡ fault)
unfolding pull_bit_field
pull_bit_field_lem junk h offset width bytes room = (
  λ lt.
      rw (lt→ltb width 8 lt, load_in width h offset room)
        (ap ok
          (masked (word width h offset) (junk / 256 ^ width) width (word-lt width h offset bytes))),
  λ le. rw (le→ltb width 8 le),
)
