-- ===== src/Packet/Getters.antt =====
-- The named getters of `ISmurfPacket_RO` (src/smurf_packet.cpp). The last five read the control field.
use smurf_processor.Prelude.{
  ℕ, ◌*◌, ◌/◌, ◌^◌, ◌==◌, leb, not, Bool, bit_and, Result, ok, runtime_error, require, ◌>>=◌, ◌>>◌,
}
use smurf_processor.Prelude.Int.{ℤ}
use smurf_processor.Packet.{Packet, get_header_word}
use smurf_processor.TesBias.{get_word}
use smurf_processor.Packet.Offsets.{
  header_version_offset, header_crate_id_offset, header_slot_number_offset,
  header_timing_configuration_offset, header_number_channel_offset, header_tes_dac_offset,
  header_unix_time_offset, header_flux_ramp_increment_offset, header_flux_ramp_offset_offset,
  header_counter0_offset, header_counter1_offset, header_counter2_offset,
  header_averaging_reset_bits_offset, header_frame_counter_offset, header_tes_relay_setting_offset,
  header_external_time_clock_offset, header_control_field_offset, header_test_parameters_offset,
  header_number_rows_offset, header_number_rows_reported_offset, header_row_length_offset,
  header_data_rate_offset, clear_average_bit_offset, disable_stream_bit_offset,
  disable_file_write_bit_offset, read_config_each_cycle_bit_offset,
}

unfoldable pub get_version : Packet → Result ℕ
get_version p = get_header_word 1 p header_version_offset

unfoldable pub get_crate_id : Packet → Result ℕ
get_crate_id p = get_header_word 1 p header_crate_id_offset

unfoldable pub get_slot_number : Packet → Result ℕ
get_slot_number p = get_header_word 1 p header_slot_number_offset

unfoldable pub get_timing_configuration : Packet → Result ℕ
get_timing_configuration p = get_header_word 1 p header_timing_configuration_offset

unfoldable pub get_number_channels : Packet → Result ℕ
get_number_channels p = get_header_word 4 p header_number_channel_offset

unfoldable pub get_unix_time : Packet → Result ℕ
get_unix_time p = get_header_word 8 p header_unix_time_offset

unfoldable pub get_flux_ramp_increment : Packet → Result ℕ
get_flux_ramp_increment p = get_header_word 4 p header_flux_ramp_increment_offset

unfoldable pub get_flux_ramp_offset : Packet → Result ℕ
get_flux_ramp_offset p = get_header_word 4 p header_flux_ramp_offset_offset

unfoldable pub get_counter0 : Packet → Result ℕ
get_counter0 p = get_header_word 4 p header_counter0_offset

unfoldable pub get_counter1 : Packet → Result ℕ
get_counter1 p = get_header_word 4 p header_counter1_offset

unfoldable pub get_counter2 : Packet → Result ℕ
get_counter2 p = get_header_word 8 p header_counter2_offset

unfoldable pub get_averaging_reset_bits : Packet → Result ℕ
get_averaging_reset_bits p = get_header_word 4 p header_averaging_reset_bits_offset

unfoldable pub get_frame_counter : Packet → Result ℕ
get_frame_counter p = get_header_word 4 p header_frame_counter_offset

unfoldable pub get_tes_relay_setting : Packet → Result ℕ
get_tes_relay_setting p = get_header_word 4 p header_tes_relay_setting_offset

unfoldable pub get_external_time_clock : Packet → Result ℕ
get_external_time_clock p = get_header_word 8 p header_external_time_clock_offset

unfoldable pub get_control_field : Packet → Result ℕ
get_control_field p = get_header_word 1 p header_control_field_offset

unfoldable pub get_test_parameters : Packet → Result ℕ
get_test_parameters p = get_header_word 1 p header_test_parameters_offset

unfoldable pub get_number_rows : Packet → Result ℕ
get_number_rows p = get_header_word 2 p header_number_rows_offset

unfoldable pub get_number_rows_reported : Packet → Result ℕ
get_number_rows_reported p = get_header_word 2 p header_number_rows_reported_offset

unfoldable pub get_row_length : Packet → Result ℕ
get_row_length p = get_header_word 2 p header_row_length_offset

unfoldable pub get_data_rate : Packet → Result ℕ
get_data_rate p = get_header_word 2 p header_data_rate_offset

-- `getTESBias(index)`: `tba` points at the TES DAC bytes of the header.
unfoldable pub get_tes_bias : Packet → ℕ → Result ℤ
get_tes_bias p index = get_word p.header_buffer header_tes_dac_offset index

unfoldable pub get_word_bit : ℕ → ℕ → Result Bool
get_word_bit byte index = do
  require (not (leb 8 index)) runtime_error
  ok (not (bit_and byte (1 * 2 ^ index) == 0))

unfoldable pub get_clear_average_bit : Packet → Result Bool
get_clear_average_bit p = do
  byte ← get_header_word 1 p header_control_field_offset
  get_word_bit byte clear_average_bit_offset

unfoldable pub get_disable_stream_bit : Packet → Result Bool
get_disable_stream_bit p = do
  byte ← get_header_word 1 p header_control_field_offset
  get_word_bit byte disable_stream_bit_offset

unfoldable pub get_disable_file_write_bit : Packet → Result Bool
get_disable_file_write_bit p = do
  byte ← get_header_word 1 p header_control_field_offset
  get_word_bit byte disable_file_write_bit_offset

unfoldable pub get_read_config_each_cycle_bit : Packet → Result Bool
get_read_config_each_cycle_bit p = do
  byte ← get_header_word 1 p header_control_field_offset
  get_word_bit byte read_config_each_cycle_bit_offset

unfoldable pub get_test_mode : Packet → Result ℕ
get_test_mode p = do
  byte ← get_header_word 1 p header_control_field_offset
  ok (bit_and (byte / 2 ^ 4) 0x0f)
