-- ===== src/Packet/Fields.antt =====
-- The words of the header by name, with their offsets and widths, and one getter and one setter of each.
pub mod Places
pub mod Named
use smurf_processor.Prelude.{
  ℕ, ◌+◌, ◌≤◌, ◌<◌, ◌≡◌, ◌≢◌, refl, ap, ◌⊎◌, ◌&&◌, ◌||◌, ◌==◌, leb, if◌then◌else◌, Bool, true,
  Option, none, some, List, [], ◌∷◌, zero, suc, get_elem?, Result, arith,
}
use smurf_processor.Packet.{Packet, smurf_header_length, get_header_word, set_header_word}
use smurf_processor.Packet.Offsets.{
  header_version_offset, header_crate_id_offset, header_slot_number_offset,
  header_timing_configuration_offset, header_number_channel_offset, header_unix_time_offset,
  header_flux_ramp_increment_offset, header_flux_ramp_offset_offset, header_counter0_offset,
  header_counter1_offset, header_counter2_offset, header_averaging_reset_bits_offset,
  header_frame_counter_offset, header_tes_relay_setting_offset, header_external_time_clock_offset,
  header_control_field_offset, header_test_parameters_offset, header_number_rows_offset,
  header_number_rows_reported_offset, header_row_length_offset, header_data_rate_offset,
}
use smurf_processor.Packet.Getters.{
  get_version, get_crate_id, get_slot_number, get_timing_configuration, get_number_channels,
  get_unix_time, get_flux_ramp_increment, get_flux_ramp_offset, get_counter0, get_counter1,
  get_counter2, get_averaging_reset_bits, get_frame_counter, get_tes_relay_setting,
  get_external_time_clock, get_control_field, get_test_parameters, get_number_rows,
  get_number_rows_reported, get_row_length, get_data_rate,
}
use smurf_processor.Packet.Setters.{
  set_version, set_crate_id, set_slot_number, set_timing_configuration, set_number_channels,
  set_unix_time, set_flux_ramp_increment, set_flux_ramp_offset, set_counter0, set_counter1,
  set_counter2, set_averaging_reset_bits, set_frame_counter, set_tes_relay_setting,
  set_external_time_clock, set_control_field, set_test_parameters, set_number_rows,
  set_number_rows_reported, set_row_length, set_data_rate,
}

pub data Field : Type 0 where
  version crate_id slot_number timing_configuration number_channels unix_time flux_ramp_increment
        flux_ramp_offset counter0 counter1 counter2 :
      Field
  averaging_reset_bits frame_counter tes_relay_setting external_time_clock control_field
        test_parameters number_rows number_rows_reported row_length data_rate :
      Field

abbrev pub offset : Field → ℕ
offset version = header_version_offset
offset crate_id = header_crate_id_offset
offset slot_number = header_slot_number_offset
offset timing_configuration = header_timing_configuration_offset
offset number_channels = header_number_channel_offset
offset unix_time = header_unix_time_offset
offset flux_ramp_increment = header_flux_ramp_increment_offset
offset flux_ramp_offset = header_flux_ramp_offset_offset
offset counter0 = header_counter0_offset
offset counter1 = header_counter1_offset
offset counter2 = header_counter2_offset
offset averaging_reset_bits = header_averaging_reset_bits_offset
offset frame_counter = header_frame_counter_offset
offset tes_relay_setting = header_tes_relay_setting_offset
offset external_time_clock = header_external_time_clock_offset
offset control_field = header_control_field_offset
offset test_parameters = header_test_parameters_offset
offset number_rows = header_number_rows_offset
offset number_rows_reported = header_number_rows_reported_offset
offset row_length = header_row_length_offset
offset data_rate = header_data_rate_offset

-- in bytes
abbrev pub width : Field → ℕ
width version = 1
width crate_id = 1
width slot_number = 1
width timing_configuration = 1
width number_channels = 4
width unix_time = 8
width flux_ramp_increment = 4
width flux_ramp_offset = 4
width counter0 = 4
width counter1 = 4
width counter2 = 8
width averaging_reset_bits = 4
width frame_counter = 4
width tes_relay_setting = 4
width external_time_clock = 8
width control_field = 1
width test_parameters = 1
width number_rows = 2
width number_rows_reported = 2
width row_length = 2
width data_rate = 2

abbrev pub get_field : Field → Packet → Result ℕ
get_field version p = get_version p
get_field crate_id p = get_crate_id p
get_field slot_number p = get_slot_number p
get_field timing_configuration p = get_timing_configuration p
get_field number_channels p = get_number_channels p
get_field unix_time p = get_unix_time p
get_field flux_ramp_increment p = get_flux_ramp_increment p
get_field flux_ramp_offset p = get_flux_ramp_offset p
get_field counter0 p = get_counter0 p
get_field counter1 p = get_counter1 p
get_field counter2 p = get_counter2 p
get_field averaging_reset_bits p = get_averaging_reset_bits p
get_field frame_counter p = get_frame_counter p
get_field tes_relay_setting p = get_tes_relay_setting p
get_field external_time_clock p = get_external_time_clock p
get_field control_field p = get_control_field p
get_field test_parameters p = get_test_parameters p
get_field number_rows p = get_number_rows p
get_field number_rows_reported p = get_number_rows_reported p
get_field row_length p = get_row_length p
get_field data_rate p = get_data_rate p

abbrev pub set_field : Field → Packet → ℕ → Result Packet
set_field version p v = set_version p v
set_field crate_id p v = set_crate_id p v
set_field slot_number p v = set_slot_number p v
set_field timing_configuration p v = set_timing_configuration p v
set_field number_channels p v = set_number_channels p v
set_field unix_time p v = set_unix_time p v
set_field flux_ramp_increment p v = set_flux_ramp_increment p v
set_field flux_ramp_offset p v = set_flux_ramp_offset p v
set_field counter0 p v = set_counter0 p v
set_field counter1 p v = set_counter1 p v
set_field counter2 p v = set_counter2 p v
set_field averaging_reset_bits p v = set_averaging_reset_bits p v
set_field frame_counter p v = set_frame_counter p v
set_field tes_relay_setting p v = set_tes_relay_setting p v
set_field external_time_clock p v = set_external_time_clock p v
set_field control_field p v = set_control_field p v
set_field test_parameters p v = set_test_parameters p v
set_field number_rows p v = set_number_rows p v
set_field number_rows_reported p v = set_number_rows_reported p v
set_field row_length p v = set_row_length p v
set_field data_rate p v = set_data_rate p v
