-- ===== src/Packet/Control.antt =====
-- The bits of the control field and its test mode.
use smurf_processor.Prelude.{
  ℕ, ◌+◌, ◌*◌, ◌/◌, ◌%◌, ◌^◌, ◌<◌, ◌≡◌, refl, sym, ◌∙◌, ap, ap₂, ◌≢◌, ◌==◌, if◌then◌else◌, Bool,
  bit_and, bit_or, Result, ok, ◌>>=◌, arith, ok-injective,
}
use smurf_processor.Prelude.Bytes.{byte_at, word, word-lt}
use smurf_processor.Prelude.Bits.{and_low_nibble, or_nibbles', and_shifted_nibble}
use smurf_processor.Packet.{Packet, IsValid}
use smurf_processor.Packet.Offsets.{header_control_field_offset}
use smurf_processor.Packet.Getters.{
  get_word_bit, get_clear_average_bit, get_disable_stream_bit, get_disable_file_write_bit,
  get_read_config_each_cycle_bit, get_test_mode, get_control_field,
}
use smurf_processor.Packet.Setters.{
  set_word_bit, set_clear_average_bit, set_disable_stream_bit, set_disable_file_write_bit,
  set_read_config_each_cycle_bit, set_test_mode, set_control_field,
}
use smurf_processor.Packet.Fields.{Field, control_field, get_field}
use smurf_processor.Packet.WordBits.{
  has_bit, with_bit, has_bit-with_bit, with_bit_nibble, set_word_bit_in, get_word_bit_in,
  has_bit-mod,
}
use smurf_processor.Packet.Laws.{set_field-SetTo, get_field-word}

pub data ControlBit : Type 0 where
  clear_average disable_stream disable_file_write read_config_each_cycle : ControlBit

abbrev pub bit_offset : ControlBit → ℕ
bit_offset clear_average = 0
bit_offset disable_stream = 1
bit_offset disable_file_write = 2
bit_offset read_config_each_cycle = 3

abbrev pub get_bit : ControlBit → Packet → Result Bool
get_bit clear_average p = get_clear_average_bit p
get_bit disable_stream p = get_disable_stream_bit p
get_bit disable_file_write p = get_disable_file_write_bit p
get_bit read_config_each_cycle p = get_read_config_each_cycle_bit p

abbrev pub set_bit : ControlBit → Packet → Bool → Result Packet
set_bit clear_average p v = set_clear_average_bit p v
set_bit disable_stream p v = set_disable_stream_bit p v
set_bit disable_file_write p v = set_disable_file_write_bit p v
set_bit read_config_each_cycle p v = set_read_config_each_cycle_bit p v

bit_offset-lt : (k : ControlBit) → bit_offset k < 4
bit_offset-lt clear_average = omega arith
bit_offset-lt disable_stream = omega arith
bit_offset-lt disable_file_write = omega arith
bit_offset-lt read_config_each_cycle = omega arith

get_bit_lem :
    (k : ControlBit) (p : Packet)
    → get_bit k p ≡ (get_control_field p >>= λ b. get_word_bit b (bit_offset k))
unfolding get_clear_average_bit get_disable_stream_bit get_disable_file_write_bit
    get_read_config_each_cycle_bit get_control_field
get_bit_lem clear_average p = refl
get_bit_lem disable_stream p = refl
get_bit_lem disable_file_write p = refl
get_bit_lem read_config_each_cycle p = refl

set_bit_lem :
    (k : ControlBit) (p : Packet) (v : Bool)
    → set_bit k p v ≡ (
        get_control_field p >>= λ b.
        set_word_bit b (bit_offset k) v >>= λ b'. set_control_field p b')
unfolding set_clear_average_bit set_disable_stream_bit set_disable_file_write_bit
    set_read_config_each_cycle_bit set_control_field
set_bit_lem clear_average p v = refl
set_bit_lem disable_stream p v = refl
set_bit_lem disable_file_write p v = refl
set_bit_lem read_config_each_cycle p v = refl

mode_lem :
    (p : Packet) → get_test_mode p ≡ (get_control_field p >>= λ b. ok (bit_and (b / 2 ^ 4) 0x0f))
unfolding get_test_mode get_control_field
mode_lem p = refl

set_mode_lem :
    (p : Packet) (value : ℕ)
    → set_test_mode p value ≡ (
        get_control_field p >>= λ u8.
        set_control_field p (bit_or (bit_and u8 0x0f) (bit_and (value % 256 * 2 ^ 4) 0xf0)))
unfolding set_test_mode set_control_field
set_mode_lem p value = refl

-- The byte of the control field
abbrev pub control : Packet → ℕ
control p = word 1 p.header_buffer header_control_field_offset

module _ {p : Packet} (valid : IsValid p) where
  control_read : get_control_field p ≡ ok (control p)
  control_read = get_field-word control_field valid

  pub control-lt : control p < 256
  control-lt = word-lt 1 p.header_buffer header_control_field_offset valid.bytes

  pub get_bit_read : (k : ControlBit) → get_bit k p ≡ ok (has_bit (control p) (bit_offset k))
  get_bit_read k =
      get_bit_lem k p
      ∙ ap (λ r. r >>= λ b. get_word_bit b (bit_offset k)) control_read
      ∙ get_word_bit_in (control p) (bit_offset k) (omega (arith, bit_offset-lt k))

  pub get_test_mode_read : get_test_mode p ≡ ok (control p / 16)
  get_test_mode_read =
      mode_lem p
      ∙ ap (λ r. r >>= λ b. ok (bit_and (b / 2 ^ 4) 0x0f)) control_read
      ∙ ap ok
          (omega (arith, and_low_nibble (control p / 16) (omega (arith, control-lt)), control-lt))

-- What a setter of the control field leaves: all but the bits or the mode that it is for.
pub record Controls (p p' : Packet) : Type 0 where
  pub valid : IsValid p'
  pub others : (g : Field) → g ≢ control_field → get_field g p' ≡ get_field g p
  pub same_payload : p'.payload_buffer ≡ p.payload_buffer
  pub other_bytes :
      (k : ℕ)
      → k ≢ header_control_field_offset
      → byte_at p'.header_buffer k ≡ byte_at p.header_buffer k

module _ (p : Packet) (v : IsValid p) where
  store_control :
      (b : ℕ)
      → b < 256
      → (p' : Packet) × (set_control_field p b ≡ ok p') × Controls p p' × (control p' ≡ b)
  store_control b h =
      let (p', stored, to) = set_field-SetTo control_field p b v in
      (
        p',
        stored,
        record {
          valid = to.valid;
          others = to.others;
          same_payload = to.same_payload;
          other_bytes = λ k ne. to.other_bytes k (omega (arith, ne));
        },
        ok-injective (sym (get_field-word control_field to.valid) ∙ to.own ∙ ap ok (omega arith)),
      )

  -- On a valid packet each of the four bit setters succeeds: the getter of its bit returns what was set,
  -- the getters of the other three bits and of the test mode return what they returned before,
  -- and so do the getters of all other fields; every byte of the header but the control field's,
  -- the payload and the validity are kept.
  pub set_bit-Controls :
      (k : ControlBit) (value : Bool)
      → (p' : Packet) × (set_bit k p value ≡ ok p')
        × ((j : ControlBit)
            → get_bit j p' ≡ (if bit_offset k == bit_offset j then ok value else get_bit j p))
        × (get_test_mode p' ≡ get_test_mode p)
        × Controls p p'
  set_bit-Controls k value =
      let (p', stored, controls, now) =
        store_control new (with_bit_nibble old i value lt small).1 in
      (
        p',
        set_bit_lem k p value
            ∙ ap
                (λ r.
                  r >>= λ b. set_word_bit b (bit_offset k) value >>= λ b'. set_control_field p b')
                (control_read v)
            ∙ ap (λ r. r >>= λ b'. set_control_field p b')
                (set_word_bit_in old i value (omega (arith, small)))
            ∙ stored,
        λ j.
            get_bit_read controls.valid j
            ∙ ap (λ b. ok (has_bit b (bit_offset j))) now
            ∙ ap ok (
                has_bit-with_bit old i (bit_offset j) value lt (omega (arith, small))
                  (omega (arith, bit_offset-lt j)))
            ∙ choose value (bit_offset j) (get_bit_read v j),
        get_test_mode_read controls.valid
            ∙ ap (λ b. ok (b / 16)) now
            ∙ ap ok (with_bit_nibble old i value lt small).0
            ∙ sym (get_test_mode_read v),
        controls,
      )
    where
      i : ℕ
      i = bit_offset k

      small : i < 4
      small = bit_offset-lt k

      old : ℕ
      old = control p

      lt : old < 256
      lt = control-lt v

      new : ℕ
      new = with_bit old i value

      choose :
          (value : Bool) (j : ℕ) {r : Result Bool}
          → r ≡ ok (has_bit old j)
          → ok (if i == j then value else has_bit old j) ≡ (if i == j then ok value else r)
      choose value j e = ground arith

  -- On a valid packet `setTestMode` succeeds: `getTestMode` returns the low four bits of what was set,
  -- the four bit getters and the getters of all other fields return what they returned before;
  -- payload and validity are kept.
  set_test_mode_lem :
      (value : ℕ)
      → (p' : Packet) × (set_test_mode p value ≡ ok p')
        × (get_test_mode p' ≡ ok (value % 16))
        × ((j : ControlBit) → get_bit j p' ≡ get_bit j p)
        × Controls p p'
  set_test_mode_lem value =
      let (p', stored, controls, now) = store_control new (omega (arith, sum)) in
      (
        p',
        set_mode_lem p value
            ∙ ap
                (λ r. r >>= λ u8.
                  set_control_field p
                    (bit_or (bit_and u8 0x0f) (bit_and (value % 256 * 2 ^ 4) 0xf0)))
                (control_read v)
            ∙ stored,
        get_test_mode_read controls.valid ∙ ap ok (omega (arith, now, sum)),
        λ j.
            get_bit_read controls.valid j
            ∙ ap (λ b. ok (has_bit b (bit_offset j))) now
            ∙ ap ok (
                has_bit-mod new (bit_offset j) (omega (arith, sum)) (bit_offset-lt j)
                ∙ ap (λ b. has_bit b (bit_offset j)) (omega (arith, sum))
                ∙ sym (has_bit-mod old (bit_offset j) lt (bit_offset-lt j)))
            ∙ sym (get_bit_read v j),
        controls,
      )
    where
      old : ℕ
      old = control p

      lt : old < 256
      lt = control-lt v

      new : ℕ
      new = bit_or (bit_and old 0x0f) (bit_and (value % 256 * 2 ^ 4) 0xf0)

      sum : new ≡ value % 16 * 16 + old % 16
      sum =
          ap₂ bit_or (and_low_nibble old lt)
            (and_shifted_nibble (value % 256) (omega arith) ∙ omega arith)
          ∙ or_nibbles' (value % 16) (old % 16) (omega arith) (omega arith)
