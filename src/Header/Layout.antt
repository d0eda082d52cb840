-- ===== src/Header/Layout.antt =====
-- The offsets and widths, in bytes, of the fields of a frame's header, and the bits of its control field:
-- the constants of include/smurf_packet.h.
use smurf_processor.Prelude.{ℕ}

abbrev pub h_version_offset : ℕ
h_version_offset = 0

abbrev pub h_version_width : ℕ
h_version_width = 1

abbrev pub h_num_channels_offset : ℕ
h_num_channels_offset = 4

abbrev pub h_num_channels_width : ℕ
h_num_channels_width = 4

abbrev pub h_tes_dac_offset : ℕ
h_tes_dac_offset = 8

abbrev pub h_tes_dac_width : ℕ
h_tes_dac_width = 40

abbrev pub h_unix_time_offset : ℕ
h_unix_time_offset = 48

abbrev pub h_unix_time_width : ℕ
h_unix_time_width = 8

abbrev pub h_1hz_counter_offset : ℕ
h_1hz_counter_offset = 64

abbrev pub h_1hz_counter_width : ℕ
h_1hz_counter_width = 4

abbrev pub h_ext_counter_offset : ℕ
h_ext_counter_offset = 68

abbrev pub h_ext_counter_width : ℕ
h_ext_counter_width = 4

abbrev pub h_epics_ns_offset : ℕ
h_epics_ns_offset = 72

abbrev pub h_epics_ns_width : ℕ
h_epics_ns_width = 4

abbrev pub h_epics_s_offset : ℕ
h_epics_s_offset = 76

abbrev pub h_epics_s_width : ℕ
h_epics_s_width = 4

abbrev pub h_frame_counter_offset : ℕ
h_frame_counter_offset = 84

abbrev pub h_frame_counter_width : ℕ
h_frame_counter_width = 4

abbrev pub h_mce_syncword_offset : ℕ
h_mce_syncword_offset = 96

abbrev pub h_mce_syncword_width : ℕ
h_mce_syncword_width = 5

abbrev pub h_user0a_ctrl_offset : ℕ
h_user0a_ctrl_offset = 104

abbrev pub h_user0a_ctrl_width : ℕ
h_user0a_ctrl_width = 2

abbrev pub h_ctrl_bit_clear : ℕ
h_ctrl_bit_clear = 0

abbrev pub h_ctrl_bit_disable_stream : ℕ
h_ctrl_bit_disable_stream = 1

abbrev pub h_ctrl_bit_disable_file : ℕ
h_ctrl_bit_disable_file = 2

abbrev pub h_ctrl_bit_read_config : ℕ
h_ctrl_bit_read_config = 3

abbrev pub h_ctrl_nibble_test_modes : ℕ
h_ctrl_nibble_test_modes = 4

abbrev pub h_user0b_ctrl_offset : ℕ
h_user0b_ctrl_offset = 105

abbrev pub h_user0b_ctrl_width : ℕ
h_user0b_ctrl_width = 1

abbrev pub h_num_rows_offset : ℕ
h_num_rows_offset = 112

abbrev pub h_num_rows_width : ℕ
h_num_rows_width = 2

abbrev pub h_num_rows_reported_offset : ℕ
h_num_rows_reported_offset = 114

abbrev pub h_num_rows_reported_width : ℕ
h_num_rows_reported_width = 2

abbrev pub h_row_len_offset : ℕ
h_row_len_offset = 120

abbrev pub h_row_len_width : ℕ
h_row_len_width = 2

abbrev pub h_data_rate_offset : ℕ
h_data_rate_offset = 122

abbrev pub h_data_rate_width : ℕ
h_data_rate_width = 2
