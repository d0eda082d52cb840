-- ===== src/TesBias/Layout.antt =====
-- Where the twenty bits of each value lie, and what `setWord` and `getWord` do to them.
use smurf_processor.Prelude.{
  ℕ, ◌+◌, ◌*◌, ◌/◌, ◌%◌, ◌^◌, ◌≤◌, ◌<◌, ◌≡◌, ◌∙◌, ◌⊎◌, ◌==◌, if◌then◌else◌, List, ok, arith, length,
  set, length-set, get_or-set_self, get_or-set_ne,
}
use smurf_processor.Prelude.Int.{sign_of}
use smurf_processor.Prelude.Bytes.{byte_at, IsBytes, word, peek_in, poke_in, load_in, set-IsBytes}
use smurf_processor.Prelude.Bits.{and_high_nibble, and_low_nibble, or_nibbles, or_nibbles'}
use smurf_processor.TesBias.{set_first, set_second, get_word}

-- `buf'` is `buf` with three bytes from `b` on written over.
pub record Wrote (buf buf' : List ℕ) (b x y z : ℕ) : Type 0 where
  pub same_length : length buf' ≡ length buf
  pub first : byte_at buf' b ≡ x
  pub second : byte_at buf' (b + 1) ≡ y
  pub third : byte_at buf' (b + 2) ≡ z
  pub others : (j : ℕ) → (j < b) ⊎ (b + 2 < j) → byte_at buf' j ≡ byte_at buf j
  pub bytes : IsBytes buf → IsBytes buf'

three : List ℕ → ℕ → ℕ → ℕ → ℕ → List ℕ
three buf b x y z = set (set (set buf b x) (b + 1) y) (b + 2) z

three-Wrote :
    (buf : List ℕ) (b x y z : ℕ)
    → b + 3 ≤ length buf
    → x < 256
    → y < 256
    → z < 256
    → Wrote buf (three buf b x y z) b x y z
unfolding three
three-Wrote buf b x y z h hx hy hz =
    let one = set buf b x in
    let two = set one (b + 1) y in
    let l₁ = length-set buf b x in
    let l₂ = length-set one (b + 1) y in
    record {
      same_length = length-set two (b + 2) z ∙ l₂ ∙ l₁;
      first =
          get_or-set_ne two (b + 2) b z 0 (omega arith)
          ∙ get_or-set_ne one (b + 1) b y 0 (omega arith)
          ∙ get_or-set_self buf b x 0 (omega arith);
      second =
          get_or-set_ne two (b + 2) (b + 1) z 0 (omega arith)
          ∙ get_or-set_self one (b + 1) y 0 (omega (arith, l₁));
      third = get_or-set_self two (b + 2) z 0 (omega (arith, l₁, l₂));
      others = λ j o.
          get_or-set_ne two (b + 2) j z 0 (omega arith)
          ∙ get_or-set_ne one (b + 1) j y 0 (omega arith)
          ∙ get_or-set_ne buf b j x 0 (omega arith);
      bytes = λ h.
          set-IsBytes two (b + 2) z hz (set-IsBytes one (b + 1) y hy (set-IsBytes buf b x hx h));
    }

module _ (buf : List ℕ) (b v : ℕ) (room : b + 3 ≤ length buf) (bytes : IsBytes buf) where
  -- The first word of a block keeps the high nibble of the shared byte.
  pub set_first_lem :
      (buf' : List ℕ) × (set_first buf b v ≡ ok buf')
      × Wrote buf buf' b (v % 256) (v / 256 % 256) (byte_at buf (b + 2) / 16 * 16 + v / 65536 % 16)
  set_first_lem = (
    three buf b (v % 256) (v / 256 % 256) z,
    runs,
    three-Wrote buf b (v % 256) (v / 256 % 256) z room (omega arith) (omega arith)
        (omega (arith, bytes (b + 2))),
  )
    where
      z : ℕ
      z = byte_at buf (b + 2) / 16 * 16 + v / 65536 % 16

      one : List ℕ
      one = set buf b (v % 256)

      two : List ℕ
      two = set one (b + 1) (v / 256 % 256)

      old : byte_at two (b + 2) ≡ byte_at buf (b + 2)
      old =
          get_or-set_ne one (b + 1) (b + 2) (v / 256 % 256) 0 (omega arith)
          ∙ get_or-set_ne buf b (b + 2) (v % 256) 0 (omega arith)

      runs : set_first buf b v ≡ ok (three buf b (v % 256) (v / 256 % 256) z)
      runs =
          unfold set_first three in
          ground (
            arith,
            poke_in buf b (v % 256),
            poke_in one (b + 1) (v / 256 % 256),
            length-set buf b (v % 256),
            length-set one (b + 1) (v / 256 % 256),
            peek_in two (b + 2),
            poke_in two (b + 2) z,
            old,
            bytes (b + 2),
            and_high_nibble (byte_at buf (b + 2)),
            and_low_nibble (v / 65536 % 256),
            or_nibbles (byte_at buf (b + 2) / 16) (v / 65536 % 16),
          )

  -- The second word keeps the low nibble of the shared byte, at which it starts.
  pub set_second_lem :
      (buf' : List ℕ) × (set_second buf b v ≡ ok buf')
      × Wrote buf buf' b (v % 256 / 16 * 16 + byte_at buf b % 16) (v / 256 % 256) (v / 65536 % 256)
  set_second_lem = (
    three buf b x (v / 256 % 256) (v / 65536 % 256),
    runs,
    three-Wrote buf b x (v / 256 % 256) (v / 65536 % 256) room (omega (arith, bytes b))
        (omega arith) (omega arith),
  )
    where
      x : ℕ
      x = v % 256 / 16 * 16 + byte_at buf b % 16

      one : List ℕ
      one = set buf b x

      two : List ℕ
      two = set one (b + 1) (v / 256 % 256)

      runs : set_second buf b v ≡ ok (three buf b x (v / 256 % 256) (v / 65536 % 256))
      runs =
          unfold set_second three in
          ground (
            arith,
            peek_in buf b,
            poke_in buf b x,
            poke_in one (b + 1) (v / 256 % 256),
            poke_in two (b + 2) (v / 65536 % 256),
            length-set buf b x,
            length-set one (b + 1) (v / 256 % 256),
            bytes b,
            and_low_nibble (byte_at buf b),
            and_high_nibble (v % 256),
            or_nibbles' (v % 256 / 16) (byte_at buf b % 16),
          )

-- The position of the first byte of the value of index `i`, which may start within that byte.
unfoldable pub start : ℕ → ℕ → ℕ
start p i = p + 5 * (i / 2) + (if i % 2 == 0 then 0 else 2)

-- The twenty bits of the value of index `i`: two bytes and a nibble.
unfoldable pub field : List ℕ → ℕ → ℕ → ℕ
field buf p i =
    let b = p + 5 * (i / 2) in
    if i % 2 == 0
    then byte_at buf b + 256 * byte_at buf (b + 1) + 65536 * (byte_at buf (b + 2) % 16)
    else byte_at buf (b + 2) / 16 + 16 * byte_at buf (b + 3) + 4096 * byte_at buf (b + 4)

pub field-lt : (buf : List ℕ) (p i : ℕ) → IsBytes buf → field buf p i < 2 ^ 20
unfolding field
field-lt buf p i h =
    let b = p + 5 * (i / 2) in ground (arith, h b, h (b + 1), h (b + 2), h (b + 3), h (b + 4))

-- Four bytes of which the last does not count.
word_four :
    (buf : List ℕ) (b : ℕ)
    → word 4 buf b
      ≡ byte_at buf b
        + 256 * byte_at buf (b + 1)
        + 65536 * byte_at buf (b + 2)
        + 16777216 * byte_at buf (b + 3)
unfolding word
word_four buf b = ground arith

even_bits :
    (buf : List ℕ) (b : ℕ)
    → IsBytes buf
    → word 4 buf b % 2 ^ 20
      ≡ byte_at buf b + 256 * byte_at buf (b + 1) + 65536 * (byte_at buf (b + 2) % 16)
even_bits buf b h = omega (arith, word_four buf b, h b, h (b + 1))

odd_bits :
    (buf : List ℕ) (b : ℕ)
    → IsBytes buf
    → word 4 buf (b + 2) / 16 % 2 ^ 20
      ≡ byte_at buf (b + 2) / 16 + 16 * byte_at buf (b + 3) + 4096 * byte_at buf (b + 4)
odd_bits buf b h = ground (arith, word_four buf (b + 2), h (b + 2), h (b + 3), h (b + 4))

-- `getWord` is the sign-extended field. The read takes four bytes, one or two more than the field.
pub get_word_lem :
    (buf : List ℕ) (p i : ℕ)
    → i < 16
    → IsBytes buf
    → start p i + 4 ≤ length buf
    → get_word buf p i ≡ ok (sign_of 20 (field buf p i))
unfolding get_word field start
get_word_lem buf p i lt h room = ground (
  arith,
  load_in 4 buf (p + 5 * (i / 2) + 0),
  load_in 4 buf (p + 5 * (i / 2) + 2),
  even_bits buf (p + 5 * (i / 2) + 0) h,
  odd_bits buf (p + 5 * (i / 2)) h,
)
