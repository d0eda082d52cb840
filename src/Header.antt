-- ===== src/Header.antt =====
-- `SmurfHeader` of include/smurf_packet.h and src/smurf_packet.cpp, with `pull_bit_field`: the fields of a raw
-- frame, and the counter that says after how many frames an average is complete.
-- The object only points at a frame's bytes, so its methods take the buffer `h` that it points at;
-- `put_field` returns the changed buffer. `junk` is the uninitialised word that
-- `pull_bit_field` copies a field's bytes into.
pub mod Layout
pub mod Fields
pub mod Agree
pub mod Averaging
mod Tests
use smurf_processor.Prelude.{
  ℕ, ◌+◌, ◌-◌, ◌*◌, ◌/◌, ◌%◌, ◌^◌, ltb, leb, ◌==◌, if◌then◌else◌, not, Bool, true, bit_and, List,
  Result, ok, within, ◌>>=◌, ◌>>◌, length, take,
}
use smurf_processor.Prelude.Int.{ℤ, unsigned}
use smurf_processor.Header.Layout.{
  h_version_offset, h_version_width, h_num_channels_offset, h_num_channels_width,
  h_1hz_counter_offset, h_1hz_counter_width, h_ext_counter_offset, h_ext_counter_width,
  h_epics_ns_offset, h_epics_ns_width, h_epics_s_offset, h_epics_s_width, h_frame_counter_offset,
  h_frame_counter_width, h_mce_syncword_offset, h_mce_syncword_width, h_user0a_ctrl_offset,
  h_user0a_ctrl_width, h_ctrl_bit_clear, h_ctrl_bit_disable_stream, h_ctrl_bit_disable_file,
  h_ctrl_bit_read_config, h_ctrl_nibble_test_modes, h_user0b_ctrl_offset, h_user0b_ctrl_width,
  h_num_rows_offset, h_num_rows_width, h_num_rows_reported_offset, h_num_rows_reported_width,
  h_row_len_offset, h_row_len_width, h_data_rate_offset, h_data_rate_width,
}
use smurf_processor.Prelude.Bytes.{load, store, le_bytes}

-- `pull_bit_field(ptr, offset, width)`. A width above eight is only reported, and the copy then
-- overruns the local word; a width of eight shifts by 64.
unfoldable pub pull_bit_field : ℕ → List ℕ → ℕ → ℕ → Result ℕ
pull_bit_field junk h offset width = do
  within (ltb width 8)
  w ← load width h offset
  let x = w + junk / 256 ^ width * 256 ^ width
  let r = 2 ^ (width * 8) - 1
  let tmp = bit_and r x
  ok (bit_and r tmp)

-- A `uint` from the word
abbrev uint : Result ℕ → Result ℕ
uint r = r >>= λ x. ok (x % 2 ^ 32)

module _ (junk : ℕ) (h : List ℕ) where
  unfoldable pub get_version : Result ℕ
  get_version = uint (pull_bit_field junk h h_version_offset h_version_width)

  unfoldable pub get_frame_counter : Result ℕ
  get_frame_counter = uint (pull_bit_field junk h h_frame_counter_offset h_frame_counter_width)

  unfoldable pub get_1hz_counter : Result ℕ
  get_1hz_counter = uint (pull_bit_field junk h h_1hz_counter_offset h_1hz_counter_width)

  unfoldable pub get_ext_counter : Result ℕ
  get_ext_counter = uint (pull_bit_field junk h h_ext_counter_offset h_ext_counter_width)

  unfoldable pub get_syncword : Result ℕ
  get_syncword = do
    x ← pull_bit_field junk h h_mce_syncword_offset h_mce_syncword_width
    ok (bit_and x 0xffffffff)

  unfoldable pub get_epics_seconds : Result ℕ
  get_epics_seconds = do
    x ← pull_bit_field junk h h_epics_s_offset h_epics_s_width
    ok (bit_and x 0xffffffff)

  unfoldable pub get_epics_nanoseconds : Result ℕ
  get_epics_nanoseconds = do
    x ← pull_bit_field junk h h_epics_ns_offset h_epics_ns_width
    ok (bit_and x 0xffffffff)

  unfoldable pub get_clear_bit : Result ℕ
  get_clear_bit = do
    x ← pull_bit_field junk h h_user0a_ctrl_offset h_user0a_ctrl_width
    ok (if bit_and x (2 ^ h_ctrl_bit_clear) == 0 then 0 else 1)

  unfoldable pub disable_file_write : Result ℕ
  disable_file_write = do
    x ← pull_bit_field junk h h_user0a_ctrl_offset h_user0a_ctrl_width
    ok (if bit_and x (2 ^ h_ctrl_bit_disable_file) == 0 then 0 else 1)

  unfoldable pub disable_stream : Result ℕ
  disable_stream = do
    x ← pull_bit_field junk h h_user0a_ctrl_offset h_user0a_ctrl_width
    ok (if bit_and x (2 ^ h_ctrl_bit_disable_stream) == 0 then 0 else 1)

  unfoldable pub read_config_file : Result ℕ
  read_config_file = do
    x ← pull_bit_field junk h h_user0a_ctrl_offset h_user0a_ctrl_width
    ok (if bit_and x (2 ^ h_ctrl_bit_read_config) == 0 then 0 else 1)

  unfoldable pub get_test_mode : Result ℕ
  get_test_mode = do
    x ← uint (pull_bit_field junk h h_user0a_ctrl_offset h_user0a_ctrl_width)
    ok (bit_and x (0xf * 2 ^ h_ctrl_nibble_test_modes) / 2 ^ 4)

  unfoldable pub get_num_rows : Result ℕ
  get_num_rows = do
    x ← uint (pull_bit_field junk h h_num_rows_offset h_num_rows_width)
    ok (if x == 0 then 33 else x)

  unfoldable pub get_num_rows_reported : Result ℕ
  get_num_rows_reported = do
    x ← uint (pull_bit_field junk h h_num_rows_reported_offset h_num_rows_reported_width)
    ok (if x == 0 then 33 else x)

  unfoldable pub get_row_len : Result ℕ
  get_row_len = do
    x ← uint (pull_bit_field junk h h_row_len_offset h_row_len_width)
    ok (if x == 0 then 60 else x)

  unfoldable pub get_data_rate : Result ℕ
  get_data_rate = do
    x ← uint (pull_bit_field junk h h_data_rate_offset h_data_rate_width)
    ok (if x == 0 then 140 else x)

  unfoldable pub get_test_parameter : Result ℕ
  get_test_parameter = uint (pull_bit_field junk h h_user0b_ctrl_offset h_user0b_ctrl_width)

  unfoldable pub get_num_channels : Result ℕ
  get_num_channels = uint (pull_bit_field junk h h_num_channels_offset h_num_channels_width)

-- `put_field(offset, width, data)`
unfoldable pub put_field : List ℕ → ℕ → ℕ → List ℕ → Result (List ℕ)
put_field h offset width bytes = do
  within (leb width (length bytes))
  store h offset (take width bytes)

-- The call passes the offset, 4, for the width too.
unfoldable pub set_num_channels : List ℕ → ℕ → Result (List ℕ)
set_num_channels h num_ch =
    put_field h h_num_channels_offset h_num_channels_offset (le_bytes 4 num_ch)

-- The object's own state, but for two fields that no constructor sets and no method reads
pub record Header : Type 0 where
  pub last_frame_count : ℕ
  pub first_cycle : Bool
  pub data_ok : Bool
  pub average_ok : Bool
  pub average_counter : ℕ
  pub last_ext_counter : ℕ
  pub last_syncword : ℕ
  pub delta_syncword : ℕ
  pub bigtimems : ℕ
  pub lastbigtime : ℕ
  pub unix_dtime : ℕ

abbrev pub new_header : Header
new_header = record {
  last_frame_count = 0;
  first_cycle = true;
  data_ok = true;
  average_ok = true;
  average_counter = 0;
  last_ext_counter = 0;
  last_syncword = 0;
  delta_syncword = 0;
  bigtimems = 0;
  lastbigtime = 0;
  unix_dtime = 0;
}

-- `copy_header(buffer)`, less the pointer
abbrev pub copy_header : Header → Header
copy_header s = record s { data_ok = true }

abbrev pub clear_average : Header → Header
clear_average s = record s { average_counter = 0 }

-- `average_control` up to its test of `num_averages`: `time` is what `ftime` gives, in seconds and
-- milliseconds, and `y` the frame's sync word.
abbrev pub count_frame : ℕ × ℕ → ℕ → Header → Header
count_frame time y s =
    let now = (time.1 + 1000 * time.0) % 2 ^ 64 in
    record s {
      bigtimems = now;
      unix_dtime = (now + 2 ^ 64 - s.lastbigtime) % 2 ^ 64;
      lastbigtime = now;
      delta_syncword = (y + 2 ^ 32 - s.last_syncword) % 2 ^ 32;
      last_syncword = y;
      average_ok = if s.average_counter == 0 then s.data_ok else s.average_ok;
      average_counter = (s.average_counter + 1) % 2 ^ 32;
    }

-- Its end where the number of averages is set here, and where the sync word says it
abbrev pub local_end : ℕ → Header → Header × ℕ
local_end n s = if s.average_counter == n then (record s { average_counter = 0 }, n) else (s, 0)

abbrev pub external_end : ℕ → Header → Header × ℕ
external_end ext s =
    if s.delta_syncword == 0
    then (record s { last_ext_counter = ext }, 0)
    else (record s { last_ext_counter = ext; average_counter = 0 }, s.average_counter)

-- `average_control(num_averages)`: the new state, and zero or the number of frames averaged
unfoldable pub average_control : ℕ → List ℕ → ℕ × ℕ → Header → ℤ → Result (Header × ℕ)
average_control junk h time s num_averages = do
  y ← get_syncword junk h
  let n = unsigned 32 num_averages
  let counted = count_frame time y s
  if n == 0
      then (get_ext_counter junk h >>= λ ext. ok (external_end ext counted))
      else ok (local_end n counted)
