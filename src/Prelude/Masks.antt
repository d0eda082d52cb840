-- ===== src/Prelude/Masks.antt =====
-- Bit operations with a mask of low ones, or with one bit, at every width.
use Prim.Native.Nat.{
  ℕ, zero, suc, ◌+◌, ◌-◌, ◌*◌, ◌/◌, ◌%◌, ◌^◌, ◌≤◌, min, bit_and, digits, bit_and-bitwise,
}
use mathlib.Core.Path.{◌≡◌, refl, ap, ◌∙◌}
use native.Mathlib.Omega.{arith}
use native.Mathlib.Nat.{pow-suc, div-add-mod, one-le-pow, div-div-eq-div-mul}

-- The library states `bit_and` as a recursion on binary digits with fuel; more fuel changes nothing.
more_fuel : (n m a b : ℕ) → a ≤ n → a ≤ m → digits (λ _. 0) min n a b ≡ digits (λ _. 0) min m a b
more_fuel zero zero a b h k = refl
more_fuel zero (suc m) zero b h k = refl
more_fuel zero (suc m) (suc a) b h k = absurd (omega arith)
more_fuel (suc n) zero zero b h k = refl
more_fuel (suc n) zero (suc a) b h k = absurd (omega arith)
more_fuel (suc n) (suc m) zero b h k = refl
more_fuel (suc n) (suc m) (suc a) b h k =
    omega (arith, more_fuel n m (suc a / 2) (b / 2) (omega arith) (omega arith))

zero-and : (b : ℕ) → bit_and 0 b ≡ 0
zero-and b = bit_and-bitwise 0 b

-- The lowest digit of the result, and the rest
pub and_digit : (a b : ℕ) → bit_and a b ≡ 2 * bit_and (a / 2) (b / 2) + min (a % 2) (b % 2)
and_digit zero b = omega (arith, zero-and b, zero-and (b / 2))
and_digit (suc a) b =
    let half = suc a / 2 in
    omega (
      arith,
      bit_and-bitwise half (b / 2),
      bit_and-bitwise (suc a) b,
      more_fuel half a half (b / 2) (omega arith) (omega arith),
    )

and-zero_below : (n a : ℕ) → a ≤ n → bit_and a 0 ≡ 0
and-zero_below n zero h = zero-and 0
and-zero_below zero (suc a) h = absurd (omega arith)
and-zero_below (suc n) (suc a) h =
    omega (arith, and_digit (suc a) 0, and-zero_below n (suc a / 2) (omega arith))

pub and-zero : (a : ℕ) → bit_and a 0 ≡ 0
and-zero a = and-zero_below a a (omega arith)

mod-two-mul : (x p : ℕ) → x % (2 * p) ≡ 2 * (x / 2 % p) + x % 2
mod-two-mul x p = omega (
  arith,
  div-add-mod (x / 2) p,
  div-add-mod x (2 * p),
  ap (λ (t : ℕ). p * t) (div-div-eq-div-mul x 2 p),
)

-- A mask of `k` ones on the left keeps the low `k` bits.
pub mask_and : (k x : ℕ) → bit_and (2 ^ k - 1) x ≡ x % 2 ^ k
mask_and zero x = omega (arith, zero-and x)
mask_and (suc k) x = rw double (
    omega (
      arith,
      and_digit (2 * 2 ^ k - 1) x,
      one-le-pow k 2 (omega arith),
      mask_and k (x / 2),
      half_mask,
      mod-two-mul x (2 ^ k),
    ))
  where
    double : 2 ^ suc k ≡ 2 * 2 ^ k
    double = omega (arith, pow-suc 2 k)

    half_mask : bit_and ((2 * 2 ^ k - 1) / 2) (x / 2) ≡ bit_and (2 ^ k - 1) (x / 2)
    half_mask = ap (λ m. bit_and m (x / 2)) (omega (arith, one-le-pow k 2 (omega arith)))

-- One bit
pub and_bit : (k x : ℕ) → bit_and x (2 ^ k) ≡ x / 2 ^ k % 2 * 2 ^ k
and_bit zero x = omega (arith, and_digit x 1, and-zero (x / 2))
and_bit (suc k) x = rw double (
    omega (
      arith,
      and_digit x (2 * 2 ^ k),
      ap (bit_and (x / 2)) half,
      and_bit k (x / 2),
      ap (λ (t : ℕ). t % 2 * 2 ^ k) (div-div-eq-div-mul x 2 (2 ^ k)),
    ))
  where
    double : 2 ^ suc k ≡ 2 * 2 ^ k
    double = omega (arith, pow-suc 2 k)

    half : 2 * 2 ^ k / 2 ≡ 2 ^ k
    half = omega arith

and_even : (a b : ℕ) → bit_and a (2 * b) ≡ 2 * bit_and (a / 2) b
and_even a b = omega (arith, and_digit a (2 * b), ap (bit_and (a / 2)) (half b))
  where
    half : (n : ℕ) → 2 * n / 2 ≡ n
    half n = omega arith

and_odd : (a b : ℕ) → bit_and a (2 * b + 1) ≡ 2 * bit_and (a / 2) b + a % 2
and_odd a b = omega (arith, and_digit a (2 * b + 1), ap (bit_and (a / 2)) (half b))
  where
    half : (n : ℕ) → (2 * n + 1) / 2 ≡ n
    half n = omega arith

-- The first nibble
pub and_first_nibble : (x : ℕ) → bit_and x 0x0f ≡ x % 16
and_first_nibble x = omega (
  arith,
  and_odd x 7,
  and_odd (x / 2) 3,
  and_odd (x / 2 / 2) 1,
  and_odd (x / 2 / 2 / 2) 0,
  and-zero (x / 2 / 2 / 2 / 2),
)

-- The second nibble, in place
pub and_second_nibble : (x : ℕ) → bit_and x 0xf0 ≡ x / 16 % 16 * 16
and_second_nibble x = omega (
  arith,
  and_even x 0x78,
  and_even (x / 2) 0x3c,
  and_even (x / 2 / 2) 0x1e,
  and_even (x / 2 / 2 / 2) 0x0f,
  and_first_nibble (x / 2 / 2 / 2 / 2),
)

-- A mask of `k` ones on the right
pub and_mask : (k x : ℕ) → bit_and x (2 ^ k - 1) ≡ x % 2 ^ k
and_mask zero x = omega (arith, and-zero x)
and_mask (suc k) x = rw double (
    ap (bit_and x) (omega (arith, one-le-pow k 2 (omega arith)))
    ∙ and_odd x (2 ^ k - 1)
    ∙ omega (arith, and_mask k (x / 2), mod-two-mul x (2 ^ k)))
  where
    double : 2 ^ suc k ≡ 2 * 2 ^ k
    double = omega (arith, pow-suc 2 k)
