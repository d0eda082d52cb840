-- ===== src/Prelude/Bits.antt =====
-- The bit operations on bytes, as arithmetic. Over a byte every value is checked by evaluation.
use Prim.Native.Nat.{ℕ, zero, suc, ◌+◌, ◌*◌, ◌/◌, ◌%◌, ◌<◌, bit_and, bit_or}
use mathlib.Core.Path.{◌≡◌, refl, ap₂, ◌∙◌}
use mathlib.Core.Bool.{Bool, true, ◌&&◌}
use native.Mathlib.Omega.{arith}
use smurf_processor.Prelude.Tests.{◌==◌, ==_iff}

-- `p` holds of every number below the bound.
unfoldable pub holds_below : ℕ → (ℕ → Bool) → Bool
holds_below zero p = true
holds_below (suc n) p = holds_below n p && p n

pub holds_below_at : (n : ℕ) (p : ℕ → Bool) (x : ℕ) → holds_below n p ≡ true → x < n → p x ≡ true
unfolding holds_below
holds_below_at zero p x h lt = absurd (omega arith)
holds_below_at (suc n) p x h lt = ground (arith, holds_below_at n p x)

-- Two functions on bytes agree everywhere if they agree on a table of all bytes.
byte_table :
    (f g : ℕ → ℕ) → holds_below 256 (λ x. f x == g x) ≡ true → (x : ℕ) → x < 256 → f x ≡ g x
byte_table f g h x lt = (==_iff (f x) (g x)).0 (holds_below_at 256 (λ y. f y == g y) x h lt)

pub and_high_nibble : (x : ℕ) → x < 256 → bit_and x 0xf0 ≡ x / 16 * 16
unfolding holds_below
and_high_nibble = byte_table (λ x. bit_and x 0xf0) (λ x. x / 16 * 16) refl

pub and_low_nibble : (x : ℕ) → x < 256 → bit_and x 0x0f ≡ x % 16
unfolding holds_below
and_low_nibble = byte_table (λ x. bit_and x 0x0f) (λ x. x % 16) refl

or_nibbles_table : (x : ℕ) → x < 256 → bit_or (x / 16 * 16) (x % 16) ≡ x
unfolding holds_below
or_nibbles_table = byte_table (λ x. bit_or (x / 16 * 16) (x % 16)) (λ x. x) refl

pub or_nibbles : (h l : ℕ) → h < 16 → l < 16 → bit_or (h * 16) l ≡ h * 16 + l
or_nibbles h l hh hl =
    ap₂ bit_or (omega arith) (omega arith) ∙ or_nibbles_table (h * 16 + l) (omega arith)

or_nibbles_table' : (x : ℕ) → x < 256 → bit_or (x % 16) (x / 16 * 16) ≡ x
unfolding holds_below
or_nibbles_table' = byte_table (λ x. bit_or (x % 16) (x / 16 * 16)) (λ x. x) refl

-- The same with the low nibble first.
pub or_nibbles' : (h l : ℕ) → h < 16 → l < 16 → bit_or l (h * 16) ≡ h * 16 + l
or_nibbles' h l hh hl =
    ap₂ bit_or (omega arith) (omega arith) ∙ or_nibbles_table' (h * 16 + l) (omega arith)

-- A byte shifted up by a nibble, cut to the high nibble of a byte.
pub and_shifted_nibble : (x : ℕ) → x < 256 → bit_and (x * 16) 0xf0 ≡ x % 16 * 16
unfolding holds_below
and_shifted_nibble = byte_table (λ x. bit_and (x * 16) 0xf0) (λ x. x % 16 * 16) refl
