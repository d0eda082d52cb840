-- ===== src/Prelude/Strings.antt =====
-- C strings as lists of characters: literals, `strcmp`, and the number that `strtol` reads.
use Prim.Native.Char.{code}
use Prim.Native.String.{String}
use Prim.Native.Nat.{ℕ, zero, suc, ◌+◌, ◌-◌, ◌*◌, ◌/◌, ◌%◌, ◌^◌, ◌≤◌, ◌<◌}
use mathlib.Core.Path.{◌≡◌, refl, sym, ap, ◌∙◌}
use mathlib.Core.Bool.{Bool, true, false, ◌&&◌}
use mathlib.Core.List.{List, [], ◌∷◌, ◌++◌, append_assoc, append-nil}
use native.Mathlib.Nat.{pow-suc}
use native.Mathlib.Omega.{arith}
use smurf_processor.Prelude.Tests.{ltb, leb, ◌==◌, if◌then◌else◌}
use smurf_processor.Prelude.Int.{
  ℤ, pos, negsuc, pos_part, neg_part, sub_ℕ, signed, unsigned, IsSigned,
}

abbrev pub codes : String → List ℕ
codes String.[] = []
codes (String.◌∷◌ c s) = code c ∷ codes s

-- `strcmp(a, b) == 0`
abbrev pub same_name : List ℕ → List ℕ → Bool
same_name [] [] = true
same_name [] (y ∷ ys) = false
same_name (x ∷ xs) [] = false
same_name (x ∷ xs) (y ∷ ys) = (x == y) && same_name xs ys

pub same_name_self : (xs : List ℕ) → same_name xs xs ≡ true
same_name_self [] = refl
same_name_self (x ∷ xs) = ground (arith, same_name_self xs)

pub eq_of_same_name : (xs ys : List ℕ) → same_name xs ys ≡ true → xs ≡ ys
eq_of_same_name [] [] e = refl
eq_of_same_name [] (y ∷ ys) e = cc
eq_of_same_name (x ∷ xs) [] e = cc
eq_of_same_name (x ∷ xs) (y ∷ ys) e = ground (arith, eq_of_same_name xs ys)

abbrev pub is_digit : ℕ → Bool
is_digit c = leb b'0' c && leb c b'9'

-- The digits at the start of a string, behind the number read so far
unfoldable pub digits : ℕ → List ℕ → ℕ
digits n [] = n
digits n (c ∷ cs) = if is_digit c then digits (n * 10 + (c - b'0')) cs else n

abbrev at_most : ℕ → ℕ → ℕ
at_most m n = if ltb m n then m else n

-- `strtol(s, &end, 10)` on a string with no space before its number
unfoldable pub strtol : List ℕ → ℤ
strtol [] = pos 0
strtol (c ∷ cs) =
    if c == b'-'
    then sub_ℕ 0 (at_most (2 ^ 63) (digits 0 cs))
    else if c == b'+'
    then pos (at_most (2 ^ 63 - 1) (digits 0 cs))
    else pos (at_most (2 ^ 63 - 1) (digits 0 (c ∷ cs)))

-- The last `k` decimal digits of a number, and an integer with that many
unfoldable pub decimal : ℕ → ℕ → List ℕ
decimal zero n = []
decimal (suc k) n = decimal k (n / 10) ++ (b'0' + n % 10) ∷ []

unfoldable pub show_int : ℕ → ℤ → List ℕ
show_int k (pos n) = decimal k n
show_int k (negsuc n) = b'-' ∷ decimal k (suc n)

one_digit :
    (n acc : ℕ) (rest : List ℕ)
    → digits acc ((b'0' + n % 10) ∷ rest) ≡ digits (acc * 10 + n % 10) rest
unfolding digits
one_digit n acc rest = ground arith

digits-decimal :
    (k n acc : ℕ) (rest : List ℕ)
    → n < 10 ^ k
    → digits acc (decimal k n ++ rest) ≡ digits (acc * 10 ^ k + n) rest
unfolding decimal
digits-decimal zero n acc rest h = ap (λ m. digits m rest) (omega arith)
digits-decimal (suc k) n acc rest h =
    ap (digits acc) (append_assoc (decimal k (n / 10)) ((b'0' + n % 10) ∷ []) rest)
    ∙ digits-decimal k (n / 10) acc ((b'0' + n % 10) ∷ rest) (omega (arith, pow-suc 10 k))
    ∙ one_digit n (acc * 10 ^ k + n / 10) rest
    ∙ ap (λ m. digits m rest) (grind (arith, ap (λ (p : ℕ). acc * p) (pow-suc 10 k)))

-- The first character is a digit, so it is no sign.
first_digit : (k n : ℕ) → 0 < k → (c : ℕ) × (cs : List ℕ) × (decimal k n ≡ c ∷ cs) × (b'0' ≤ c)
unfolding decimal
first_digit zero n h = absurd (omega arith)
first_digit (suc zero) n h = (b'0' + n % 10, [], refl, omega arith)
first_digit (suc (suc k)) n h =
    let (c, cs, e, le) = first_digit (suc k) (n / 10) (omega arith) in
    (c, cs ++ (b'0' + n % 10) ∷ [], ap (λ xs. xs ++ (b'0' + n % 10) ∷ []) e, le)

read_decimal : (k n : ℕ) → n < 10 ^ k → digits 0 (decimal k n) ≡ n
unfolding digits
read_decimal k n h =
    ap (digits 0) (sym (append-nil (decimal k n))) ∙ digits-decimal k n 0 [] h ∙ omega arith

strtol-decimal : (k n : ℕ) → 0 < k → n < 10 ^ k → n < 2 ^ 31 → strtol (decimal k n) ≡ pos n
unfolding strtol
strtol-decimal k n some h small =
    let (c, cs, e, le) = first_digit k n some in
    let value : digits 0 (c ∷ cs) ≡ n = ap (digits 0) (sym e) ∙ read_decimal k n h in
    ap strtol e ∙ ground (arith, value)

-- A written integer of 32 bits is read back, whatever zeros are before its digits.
pub strtol-show_int :
    (k : ℕ) (z : ℤ)
    → 0 < k
    → IsSigned 32 z
    → pos_part z + neg_part z < 10 ^ k
    → signed 32 (unsigned 32 (strtol (show_int k z))) ≡ z
unfolding show_int strtol
strtol-show_int k (pos n) some fits h =
    ap (λ x. signed 32 (unsigned 32 x))
      (strtol-decimal k n some (omega arith) (omega (arith, fits.below)))
    ∙ ground (arith, fits.below)
strtol-show_int k (negsuc n) some fits h =
    ap (λ x. signed 32 (unsigned 32 x)) negative ∙ ground (arith, fits.above)
  where
    negative : strtol (b'-' ∷ decimal k (suc n)) ≡ negsuc n
    negative = ground (arith, read_decimal k (suc n) (omega arith), fits.above)
