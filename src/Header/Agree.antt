-- ===== src/Header/Agree.antt =====
-- The two readers of a header, `SmurfHeader` on a frame and `ISmurfPacket_RO` on a packet, on the same bytes.
use smurf_processor.Prelude.{
  ℕ, zero, suc, ◌+◌, ◌*◌, ◌/◌, ◌%◌, ◌^◌, ◌≤◌, ◌<◌, ◌≡◌, sym, ◌∙◌, ap, ◌==◌, if◌then◌else◌, not,
  Bool, bit_and, List, ok, ◌>>=◌, arith,
}
use smurf_processor.Prelude.Bytes.{word, word-lt}
use smurf_processor.Prelude.Masks.{and_bit, and_mask, and_second_nibble}
use smurf_processor.Header.{
  pull_bit_field, get_version, get_frame_counter, get_1hz_counter, get_ext_counter, get_syncword,
  get_epics_seconds, get_epics_nanoseconds, get_clear_bit, disable_file_write, disable_stream,
  read_config_file, get_test_mode, get_num_rows, get_num_rows_reported, get_row_len, get_data_rate,
  get_test_parameter, get_num_channels,
}
use smurf_processor.Header.Fields.{pull_bit_field_lem}
use smurf_processor.Packet.{Packet, IsValid}
use smurf_processor.Packet.Getters as Getters
use smurf_processor.Packet.Fields as Words
use smurf_processor.Packet.Fields.{get_field}
use smurf_processor.Packet.Laws.{get_field-word}
use smurf_processor.Packet.WordBits.{has_bit}
use smurf_processor.Packet.Control as Control
use smurf_processor.Packet.Control.{
  get_bit, clear_average, control, get_bit_read, get_test_mode_read, control-lt,
}

-- The number of a flag
abbrev pub flag : Bool → ℕ
flag b = if b then 1 else 0

-- The same fields read both ways. Where the two differ on purpose, how they do: the flags are numbers
-- on one side, the timestamp is two words, the sync word is the low 32 bits of the packet's word of 64,
-- and the four row fields have defaults for zero.
pub record Agrees (junk : ℕ) (p : Packet) : Type 0 where
  pub version : get_version junk p.header_buffer ≡ Getters.get_version p
  pub channels : get_num_channels junk p.header_buffer ≡ Getters.get_number_channels p
  pub frame : get_frame_counter junk p.header_buffer ≡ Getters.get_frame_counter p
  pub since_1hz : get_1hz_counter junk p.header_buffer ≡ Getters.get_counter0 p
  pub since_external : get_ext_counter junk p.header_buffer ≡ Getters.get_counter1 p
  pub parameter : get_test_parameter junk p.header_buffer ≡ Getters.get_test_parameters p
  pub mode : get_test_mode junk p.header_buffer ≡ Getters.get_test_mode p
  pub clear : get_clear_bit junk p.header_buffer ≡ (get_bit clear_average p >>= λ b. ok (flag b))
  pub stream :
      disable_stream junk p.header_buffer ≡ (get_bit Control.disable_stream p >>= λ b. ok (flag b))
  pub file :
      disable_file_write junk p.header_buffer
      ≡ (get_bit Control.disable_file_write p >>= λ b. ok (flag b))
  pub config :
      read_config_file junk p.header_buffer
      ≡ (get_bit Control.read_config_each_cycle p >>= λ b. ok (flag b))
  pub timestamp :
      (get_epics_nanoseconds junk p.header_buffer >>= λ ns.
      get_epics_seconds junk p.header_buffer >>= λ s. ok (ns + 2 ^ 32 * s))
      ≡ Getters.get_counter2 p
  pub sync :
      get_syncword junk p.header_buffer
      ≡ (Getters.get_external_time_clock p >>= λ x. ok (x % 2 ^ 32))
  pub rows :
      get_num_rows junk p.header_buffer
      ≡ (Getters.get_number_rows p >>= λ x. ok (if x == 0 then 33 else x))
  pub rows_reported :
      get_num_rows_reported junk p.header_buffer
      ≡ (Getters.get_number_rows_reported p >>= λ x. ok (if x == 0 then 33 else x))
  pub row_length :
      get_row_len junk p.header_buffer
      ≡ (Getters.get_row_length p >>= λ x. ok (if x == 0 then 60 else x))
  pub rate :
      get_data_rate junk p.header_buffer
      ≡ (Getters.get_data_rate p >>= λ x. ok (if x == 0 then 140 else x))

two_bytes : (h : List ℕ) → word 2 h 104 ≡ word 1 h 104 + 256 * word 1 h 105
unfolding word
two_bytes h = omega arith

two_words : (h : List ℕ) → word 8 h 72 ≡ word 4 h 72 + 2 ^ 32 * word 4 h 76
unfolding word
two_words h = omega arith

five_of_eight : (h : List ℕ) → word 5 h 96 % 2 ^ 32 ≡ word 8 h 96 % 2 ^ 32
unfolding word
five_of_eight h = omega arith

low_bit : (k c q : ℕ) → k < 4 → (c + 256 * q) / 2 ^ k % 2 ≡ c / 2 ^ k % 2
low_bit zero c q h = omega arith
low_bit (suc zero) c q h = omega arith
low_bit (suc (suc zero)) c q h = omega arith
low_bit (suc (suc (suc zero))) c q h = omega arith
low_bit (suc (suc (suc (suc k)))) c q h = absurd (omega arith)

flag_of_test : (x : ℕ) → (if x == 0 then 0 else 1) ≡ flag (not (x == 0))
flag_of_test x = ground arith

module _ (junk : ℕ) {p : Packet} (v : IsValid p) where
  pub pull :
      (offset width : ℕ)
      → offset + width ≤ 128
      → width < 8
      → pull_bit_field junk p.header_buffer offset width ≡ ok (word width p.header_buffer offset)
  pull offset width room lt =
      (pull_bit_field_lem junk p.header_buffer offset width v.bytes
          (omega (arith, v.header_room, v.header_fixed))).0
        lt

  in_width : (offset width : ℕ) → word width p.header_buffer offset < 256 ^ width
  in_width offset width = word-lt width p.header_buffer offset v.bytes

  -- A field of at most four bytes that is returned as a `uint` is not cut.
  whole :
      (offset width : ℕ)
      → offset + width ≤ 128
      → width < 8
      → word width p.header_buffer offset < 2 ^ 32
      → (pull_bit_field junk p.header_buffer offset width >>= λ x. ok (x % 2 ^ 32))
        ≡ ok (word width p.header_buffer offset)
  whole offset width room lt small = rw (pull offset width room lt) (ap ok (omega arith))

  flag_agrees :
      (k : ℕ)
      → k < 4
      → (pull_bit_field junk p.header_buffer 104 2 >>= λ x.
          ok (if bit_and x (2 ^ k) == 0 then 0 else 1))
        ≡ ok (flag (has_bit (control p) k))
  flag_agrees k lt = rw (pull 104 2 (omega arith) (omega arith)) (
      ap ok (
        ap (λ x. if x == 0 then 0 else 1) same_bit
        ∙ flag_of_test (bit_and (control p) (1 * 2 ^ k))))
    where
      same_bit : bit_and (word 2 p.header_buffer 104) (2 ^ k) ≡ bit_and (control p) (1 * 2 ^ k)
      same_bit =
          and_bit k (word 2 p.header_buffer 104)
          ∙ ap (λ x. x * 2 ^ k)
              (ap (λ w. w / 2 ^ k % 2) (two_bytes p.header_buffer)
                ∙ low_bit k (control p) (word 1 p.header_buffer 105) lt)
          ∙ sym (ap (bit_and (control p)) (omega arith) ∙ and_bit k (control p))

  mode_agrees : get_test_mode junk p.header_buffer ≡ Getters.get_test_mode p
  unfolding get_test_mode
  mode_agrees = rw (whole 104 2 (omega arith) (omega arith) (omega (arith, in_width 104 2))) (
      ap ok (
        omega (
          arith,
          and_second_nibble (word 2 p.header_buffer 104),
          two_bytes p.header_buffer,
          control-lt v,
        ))
      ∙ sym (get_test_mode_read v))

  timestamp_agrees :
      (get_epics_nanoseconds junk p.header_buffer >>= λ ns.
      get_epics_seconds junk p.header_buffer >>= λ s. ok (ns + 2 ^ 32 * s))
      ≡ Getters.get_counter2 p
  unfolding get_epics_nanoseconds get_epics_seconds
  timestamp_agrees =
      rw (pull 72 4 (omega arith) (omega arith), pull 76 4 (omega arith) (omega arith))
        (ap ok (
            omega (
              arith,
              and_mask 32 (word 4 p.header_buffer 72),
              and_mask 32 (word 4 p.header_buffer 76),
              in_width 72 4,
              in_width 76 4,
              two_words p.header_buffer,
            ))
          ∙ sym (get_field-word Words.counter2 v))

  sync_agrees :
      get_syncword junk p.header_buffer
      ≡ (Getters.get_external_time_clock p >>= λ x. ok (x % 2 ^ 32))
  unfolding get_syncword
  sync_agrees = rw (pull 96 5 (omega arith) (omega arith)) (
      ap ok (and_mask 32 (word 5 p.header_buffer 96) ∙ five_of_eight p.header_buffer)
      ∙ sym (ap (λ r. r >>= λ x. ok (x % 2 ^ 32)) (get_field-word Words.external_time_clock v)))

  -- On the bytes of a valid packet's header each getter of `SmurfHeader` gives what the packet's getter of the same field
  -- does, with these differences: the numbers of rows and of reported rows, the row length and the data
  -- rate are 33, 33, 60 and 140 where the packet's getter gives zero, the sync word is the low 32
  -- bits of the external clock, the nanoseconds and seconds are the two halves of the timestamp, and
  -- the flags are numbers.
  pub getters_agree : Agrees junk p
  unfolding get_version get_num_channels get_frame_counter get_1hz_counter get_ext_counter
      get_test_parameter get_test_mode get_clear_bit disable_stream disable_file_write
      read_config_file get_epics_nanoseconds get_epics_seconds get_syncword get_num_rows
      get_num_rows_reported get_row_len get_data_rate
  getters_agree = record {
    version =
        whole 0 1 (omega arith) (omega arith) (omega (arith, in_width 0 1))
        ∙ sym (get_field-word Words.version v);
    channels =
        whole 4 4 (omega arith) (omega arith) (omega (arith, in_width 4 4))
        ∙ sym (get_field-word Words.number_channels v);
    frame =
        whole 84 4 (omega arith) (omega arith) (omega (arith, in_width 84 4))
        ∙ sym (get_field-word Words.frame_counter v);
    since_1hz =
        whole 64 4 (omega arith) (omega arith) (omega (arith, in_width 64 4))
        ∙ sym (get_field-word Words.counter0 v);
    since_external =
        whole 68 4 (omega arith) (omega arith) (omega (arith, in_width 68 4))
        ∙ sym (get_field-word Words.counter1 v);
    parameter =
        whole 105 1 (omega arith) (omega arith) (omega (arith, in_width 105 1))
        ∙ sym (get_field-word Words.test_parameters v);
    mode = mode_agrees;
    clear =
        flag_agrees 0 (omega arith)
        ∙ sym (ap (λ r. r >>= λ b. ok (flag b)) (get_bit_read v clear_average));
    stream =
        flag_agrees 1 (omega arith)
        ∙ sym (ap (λ r. r >>= λ b. ok (flag b)) (get_bit_read v Control.disable_stream));
    file =
        flag_agrees 2 (omega arith)
        ∙ sym (ap (λ r. r >>= λ b. ok (flag b)) (get_bit_read v Control.disable_file_write));
    config =
        flag_agrees 3 (omega arith)
        ∙ sym (ap (λ r. r >>= λ b. ok (flag b)) (get_bit_read v Control.read_config_each_cycle));
    timestamp = timestamp_agrees;
    sync = sync_agrees;
    rows = rw (whole 112 2 (omega arith) (omega arith) (omega (arith, in_width 112 2))) (
        sym (
          ap (λ r. r >>= λ x. ok (if x == 0 then 33 else x)) (get_field-word Words.number_rows v)));
    rows_reported = rw (whole 114 2 (omega arith) (omega arith) (omega (arith, in_width 114 2))) (
        sym (
          ap (λ r. r >>= λ x. ok (if x == 0 then 33 else x))
            (get_field-word Words.number_rows_reported v)));
    row_length = rw (whole 120 2 (omega arith) (omega arith) (omega (arith, in_width 120 2))) (
        sym
          (ap (λ r. r >>= λ x. ok (if x == 0 then 60 else x)) (get_field-word Words.row_length v)));
    rate = rw (whole 122 2 (omega arith) (omega arith) (omega (arith, in_width 122 2))) (
        sym
          (ap (λ r. r >>= λ x. ok (if x == 0 then 140 else x)) (get_field-word Words.data_rate v)));
  }
