-- ===== src/Packet/WordBits.antt =====
-- `getWordBit` and `setWordBit`: the bits of one byte, checked over all bytes.
use smurf_processor.Prelude.{
  ℕ, ◌-◌, ◌*◌, ◌/◌, ◌%◌, ◌^◌, ◌≤◌, ◌<◌, ◌≡◌, refl, ◌∙◌, ap, ◌==◌, ltb, if◌then◌else◌, not, Bool,
  true, false, ◌&&◌, bit_and, bit_or, ok, throw, runtime_error, ◌>>=◌, arith,
}
use smurf_processor.Prelude.Bits.{holds_below, holds_below_at}
use smurf_processor.Packet.Getters.{get_word_bit}
use smurf_processor.Packet.Setters.{set_word_bit}

abbrev pub has_bit : ℕ → ℕ → Bool
has_bit byte i = not (bit_and byte (1 * 2 ^ i) == 0)

abbrev pub with_bit : ℕ → ℕ → Bool → ℕ
with_bit byte i v =
    if v then bit_or byte (1 * 2 ^ i) % 2 ^ 8 else bit_and byte (2 ^ 32 - 1 - 1 * 2 ^ i) % 2 ^ 8

same : Bool → Bool → Bool
same true b = b
same false b = not b

same_eq : (a b : Bool) → same a b ≡ true → a ≡ b
unfolding same
same_eq a b h = ground arith

bit_cell : Bool → ℕ → ℕ → ℕ → Bool
bit_cell v b i j = same (has_bit (with_bit b i v) j) (if i == j then v else has_bit b j)

bit_table :
    holds_below 256
      (λ b. holds_below 8 (λ i. holds_below 8 (λ j. bit_cell true b i j && bit_cell false b i j)))
    ≡ true
unfolding holds_below bit_cell same
bit_table = refl

nibble_cell : Bool → ℕ → ℕ → Bool
nibble_cell v b i = (with_bit b i v / 16 == b / 16) && ltb (with_bit b i v) 256

nibble_table :
    holds_below 256 (λ b. holds_below 4 (λ i. nibble_cell true b i && nibble_cell false b i)) ≡ true
unfolding holds_below nibble_cell
nibble_table = refl

pub has_bit-with_bit :
    (b i j : ℕ) (v : Bool)
    → b < 256
    → i < 8
    → j < 8
    → has_bit (with_bit b i v) j ≡ (if i == j then v else has_bit b j)
has_bit-with_bit b i j v hb hi hj = same_eq _ _ (pick v cell)
  where
    cell : (bit_cell true b i j && bit_cell false b i j) ≡ true
    cell =
        holds_below_at 8 (λ j. bit_cell true b i j && bit_cell false b i j) j
          (holds_below_at 8 (λ i. holds_below 8 (λ j. bit_cell true b i j && bit_cell false b i j))
            i
            (holds_below_at 256
              (λ b.
                holds_below 8
                  (λ i. holds_below 8 (λ j. bit_cell true b i j && bit_cell false b i j)))
              b bit_table hb)
            hi)
          hj

    pick :
        (v : Bool)
        → (bit_cell true b i j && bit_cell false b i j) ≡ true
        → same (has_bit (with_bit b i v) j) (if i == j then v else has_bit b j) ≡ true
    pick true h = unfold bit_cell in ground arith
    pick false h = unfold bit_cell in ground arith

pub with_bit_nibble :
    (b i : ℕ) (v : Bool) → b < 256 → i < 4 → (with_bit b i v / 16 ≡ b / 16) × (with_bit b i v < 256)
with_bit_nibble b i v hb hi = pick v cell
  where
    cell : (nibble_cell true b i && nibble_cell false b i) ≡ true
    cell =
        holds_below_at 4 (λ i. nibble_cell true b i && nibble_cell false b i) i
          (holds_below_at 256
            (λ b. holds_below 4 (λ i. nibble_cell true b i && nibble_cell false b i)) b nibble_table
            hb)
          hi

    pick :
        (v : Bool)
        → (nibble_cell true b i && nibble_cell false b i) ≡ true
        → (with_bit b i v / 16 ≡ b / 16) × (with_bit b i v < 256)
    pick true h = unfold nibble_cell in ground arith
    pick false h = unfold nibble_cell in ground arith

pub set_word_bit_in : (b i : ℕ) (v : Bool) → i < 8 → set_word_bit b i v ≡ ok (with_bit b i v)
unfolding set_word_bit
set_word_bit_in b i v h = ground arith

pub get_word_bit_in : (b i : ℕ) → i < 8 → get_word_bit b i ≡ ok (has_bit b i)
unfolding get_word_bit
get_word_bit_in b i h = ground arith

-- On a byte and a bit index below eight, `setWordBit` makes the bit what it is given, and leaves every other
-- bit that `getWordBit` reads; both throw the runtime error on any other index.
word_bit_laws :
    (b : ℕ)
    → b < 256
    → ((i j : ℕ) (v : Bool)
        → i < 8
        → j < 8
        → (set_word_bit b i v >>= λ b'. get_word_bit b' j)
          ≡ (if i == j then ok v else get_word_bit b j))
      × ((i : ℕ) (v : Bool)
          → 8 ≤ i
          → (set_word_bit b i v ≡ throw runtime_error) × (get_word_bit b i ≡ throw runtime_error))
word_bit_laws b hb = (
  λ i j v hi hj.
      rw (set_word_bit_in b i v hi, get_word_bit_in b j hj)
        (get_word_bit_in (with_bit b i v) j hj
          ∙ ap ok (has_bit-with_bit b i j v hb hi hj)
          ∙ choose i j v),
  λ i v h. (unfold set_word_bit in ground arith, unfold get_word_bit in ground arith),
)
  where
    choose :
        (i j : ℕ) (v : Bool)
        → ok (if i == j then v else has_bit b j) ≡ (if i == j then ok v else ok (has_bit b j))
    choose i j v = ground arith

low_table :
    holds_below 256 (λ b. holds_below 4 (λ j. same (has_bit b j) (has_bit (b % 16) j))) ≡ true
unfolding holds_below same
low_table = refl

-- The low four bits stand in the low nibble.
pub has_bit-mod : (b j : ℕ) → b < 256 → j < 4 → has_bit b j ≡ has_bit (b % 16) j
has_bit-mod b j hb hj = same_eq _ _ (
    holds_below_at 4 (λ j. same (has_bit b j) (has_bit (b % 16) j)) j
      (holds_below_at 256 (λ b. holds_below 4 (λ j. same (has_bit b j) (has_bit (b % 16) j))) b
        low_table hb)
      hj)
