-- ===== src/Packet/Offsets.antt =====
-- The byte offsets of the header's words and the bit offsets of its control field
-- (include/smurf_packet.h, `ISmurfPacket_RO`).
use smurf_processor.Prelude.{ℕ}

abbrev pub header_version_offset : ℕ
header_version_offset = 0

abbrev pub header_crate_id_offset : ℕ
header_crate_id_offset = 1

abbrev pub header_slot_number_offset : ℕ
header_slot_number_offset = 2

abbrev pub header_timing_configuration_offset : ℕ
header_timing_configuration_offset = 3

abbrev pub header_number_channel_offset : ℕ
header_number_channel_offset = 4

abbrev pub header_tes_dac_offset : ℕ
header_tes_dac_offset = 8

abbrev pub header_unix_time_offset : ℕ
header_unix_time_offset = 48

abbrev pub header_flux_ramp_increment_offset : ℕ
header_flux_ramp_increment_offset = 56

abbrev pub header_flux_ramp_offset_offset : ℕ
header_flux_ramp_offset_offset = 60

abbrev pub header_counter0_offset : ℕ
header_counter0_offset = 64

abbrev pub header_counter1_offset : ℕ
header_counter1_offset = 68

abbrev pub header_counter2_offset : ℕ
header_counter2_offset = 72

abbrev pub header_averaging_reset_bits_offset : ℕ
header_averaging_reset_bits_offset = 80

abbrev pub header_frame_counter_offset : ℕ
header_frame_counter_offset = 84

abbrev pub header_tes_relay_setting_offset : ℕ
header_tes_relay_setting_offset = 88

abbrev pub header_external_time_clock_offset : ℕ
header_external_time_clock_offset = 96

abbrev pub header_control_field_offset : ℕ
header_control_field_offset = 104

abbrev pub header_test_parameters_offset : ℕ
header_test_parameters_offset = 105

abbrev pub header_number_rows_offset : ℕ
header_number_rows_offset = 112

abbrev pub header_number_rows_reported_offset : ℕ
header_number_rows_reported_offset = 114

abbrev pub header_row_length_offset : ℕ
header_row_length_offset = 120

abbrev pub header_data_rate_offset : ℕ
header_data_rate_offset = 122

abbrev pub clear_average_bit_offset : ℕ
clear_average_bit_offset = 0

abbrev pub disable_stream_bit_offset : ℕ
disable_stream_bit_offset = 1

abbrev pub disable_file_write_bit_offset : ℕ
disable_file_write_bit_offset = 2

abbrev pub read_config_each_cycle_bit_offset : ℕ
read_config_each_cycle_bit_offset = 3
