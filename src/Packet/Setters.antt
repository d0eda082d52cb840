-- ===== src/Packet/Setters.antt =====
-- The named setters of `ISmurfPacket` (src/smurf_packet.cpp). A value of another width than its
-- parameter's is cut to it, as at a call.
use smurf_processor.Prelude.{
  ℕ, ◌-◌, ◌*◌, ◌%◌, ◌^◌, leb, if◌then◌else◌, not, Bool, bit_and, bit_or, Result, ok, runtime_error,
  require, ◌>>=◌, ◌>>◌,
}
use smurf_processor.Prelude.Int.{ℤ}
use smurf_processor.Packet.{Packet, set_header_word}
use smurf_processor.Packet.Getters.{get_control_field}
use smurf_processor.TesBias.{set_word}
use smurf_processor.Packet.Offsets.{
  header_version_offset, header_crate_id_offset, header_slot_number_offset,
  header_timing_configuration_offset, header_number_channel_offset, header_tes_dac_offset,
  header_unix_time_offset, header_flux_ramp_increment_offset, header_flux_ramp_offset_offset,
  header_counter0_offset, header_counter1_offset, header_counter2_offset,
  header_averaging_reset_bits_offset, header_frame_counter_offset, header_tes_relay_setting_offset,
  header_external_time_clock_offset, header_control_field_offset, header_test_parameters_offset,
  header_number_rows_offset, header_number_rows_reported_offset, header_row_length_offset,
  header_data_rate_offset, clear_average_bit_offset, disable_stream_bit_offset,
  disable_file_write_bit_offset, read_config_each_cycle_bit_offset,
}

unfoldable pub set_version : Packet → ℕ → Result Packet
set_version p value = set_header_word 1 p header_version_offset value

unfoldable pub set_crate_id : Packet → ℕ → Result Packet
set_crate_id p value = set_header_word 1 p header_crate_id_offset value

unfoldable pub set_slot_number : Packet → ℕ → Result Packet
set_slot_number p value = set_header_word 1 p header_slot_number_offset value

unfoldable pub set_timing_configuration : Packet → ℕ → Result Packet
set_timing_configuration p value = set_header_word 1 p header_timing_configuration_offset value

unfoldable pub set_number_channels : Packet → ℕ → Result Packet
set_number_channels p value = set_header_word 4 p header_number_channel_offset value

unfoldable pub set_unix_time : Packet → ℕ → Result Packet
set_unix_time p value = set_header_word 8 p header_unix_time_offset value

unfoldable pub set_flux_ramp_increment : Packet → ℕ → Result Packet
set_flux_ramp_increment p value = set_header_word 4 p header_flux_ramp_increment_offset value

unfoldable pub set_flux_ramp_offset : Packet → ℕ → Result Packet
set_flux_ramp_offset p value = set_header_word 4 p header_flux_ramp_offset_offset value

unfoldable pub set_counter0 : Packet → ℕ → Result Packet
set_counter0 p value = set_header_word 4 p header_counter0_offset value

unfoldable pub set_counter1 : Packet → ℕ → Result Packet
set_counter1 p value = set_header_word 4 p header_counter1_offset value

unfoldable pub set_counter2 : Packet → ℕ → Result Packet
set_counter2 p value = set_header_word 8 p header_counter2_offset value

unfoldable pub set_averaging_reset_bits : Packet → ℕ → Result Packet
set_averaging_reset_bits p value = set_header_word 4 p header_averaging_reset_bits_offset value

unfoldable pub set_frame_counter : Packet → ℕ → Result Packet
set_frame_counter p value = set_header_word 4 p header_frame_counter_offset value

unfoldable pub set_tes_relay_setting : Packet → ℕ → Result Packet
set_tes_relay_setting p value = set_header_word 4 p header_tes_relay_setting_offset value

unfoldable pub set_external_time_clock : Packet → ℕ → Result Packet
set_external_time_clock p value = set_header_word 8 p header_external_time_clock_offset value

unfoldable pub set_control_field : Packet → ℕ → Result Packet
set_control_field p value = set_header_word 1 p header_control_field_offset value

unfoldable pub set_test_parameters : Packet → ℕ → Result Packet
set_test_parameters p value = set_header_word 1 p header_test_parameters_offset value

unfoldable pub set_number_rows : Packet → ℕ → Result Packet
set_number_rows p value = set_header_word 2 p header_number_rows_offset value

unfoldable pub set_number_rows_reported : Packet → ℕ → Result Packet
set_number_rows_reported p value = set_header_word 2 p header_number_rows_reported_offset value

unfoldable pub set_row_length : Packet → ℕ → Result Packet
set_row_length p value = set_header_word 2 p header_row_length_offset value

unfoldable pub set_data_rate : Packet → ℕ → Result Packet
set_data_rate p value = set_header_word 2 p header_data_rate_offset value

unfoldable pub set_tes_bias : Packet → ℕ → ℤ → Result Packet
set_tes_bias p index value = do
  buf ← set_word p.header_buffer header_tes_dac_offset index value
  ok (record p { header_buffer = buf })

-- A byte is promoted, so the complement is taken in `int` and then cut to the byte.
unfoldable pub set_word_bit : ℕ → ℕ → Bool → Result ℕ
set_word_bit byte index value = do
  require (not (leb 8 index)) runtime_error
  ok (
      if value
      then bit_or byte (1 * 2 ^ index) % 2 ^ 8
      else bit_and byte (2 ^ 32 - 1 - 1 * 2 ^ index) % 2 ^ 8)

unfoldable pub set_clear_average_bit : Packet → Bool → Result Packet
set_clear_average_bit p value = do
  byte ← get_control_field p
  byte' ← set_word_bit byte clear_average_bit_offset value
  set_header_word 1 p header_control_field_offset byte'

unfoldable pub set_disable_stream_bit : Packet → Bool → Result Packet
set_disable_stream_bit p value = do
  byte ← get_control_field p
  byte' ← set_word_bit byte disable_stream_bit_offset value
  set_header_word 1 p header_control_field_offset byte'

unfoldable pub set_disable_file_write_bit : Packet → Bool → Result Packet
set_disable_file_write_bit p value = do
  byte ← get_control_field p
  byte' ← set_word_bit byte disable_file_write_bit_offset value
  set_header_word 1 p header_control_field_offset byte'

unfoldable pub set_read_config_each_cycle_bit : Packet → Bool → Result Packet
set_read_config_each_cycle_bit p value = do
  byte ← get_control_field p
  byte' ← set_word_bit byte read_config_each_cycle_bit_offset value
  set_header_word 1 p header_control_field_offset byte'

-- The shift is done in `int`, on a parameter of eight bits.
unfoldable pub set_test_mode : Packet → ℕ → Result Packet
set_test_mode p value = do
  u8 ← get_control_field p
  let v = value % 2 ^ 8
  set_header_word 1 p header_control_field_offset
      (bit_or (bit_and u8 0x0f) (bit_and (v * 2 ^ 4) 0xf0))
