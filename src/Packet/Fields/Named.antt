-- ===== src/Packet/Fields/Named.antt =====
-- The named getters and setters read and write the word at the offset.
use smurf_processor.Prelude.{ℕ, ◌≡◌, refl}
use smurf_processor.Packet.{Packet, get_header_word, set_header_word}
use smurf_processor.Packet.Getters.{
  get_version, get_crate_id, get_slot_number, get_timing_configuration, get_number_channels,
  get_unix_time, get_flux_ramp_increment, get_flux_ramp_offset, get_counter0, get_counter1,
  get_counter2, get_averaging_reset_bits, get_frame_counter, get_tes_relay_setting,
  get_external_time_clock, get_control_field, get_test_parameters, get_number_rows,
  get_number_rows_reported, get_row_length, get_data_rate,
}
use smurf_processor.Packet.Setters.{
  set_version, set_crate_id, set_slot_number, set_timing_configuration, set_number_channels,
  set_unix_time, set_flux_ramp_increment, set_flux_ramp_offset, set_counter0, set_counter1,
  set_counter2, set_averaging_reset_bits, set_frame_counter, set_tes_relay_setting,
  set_external_time_clock, set_control_field, set_test_parameters, set_number_rows,
  set_number_rows_reported, set_row_length, set_data_rate,
}
use smurf_processor.Packet.Fields.{
  Field, version, crate_id, slot_number, timing_configuration, number_channels, unix_time,
  flux_ramp_increment, flux_ramp_offset, counter0, counter1, counter2, averaging_reset_bits,
  frame_counter, tes_relay_setting, external_time_clock, control_field, test_parameters,
  number_rows, number_rows_reported, row_length, data_rate, offset, width, get_field, set_field,
}

-- The named getter of a field reads the word at its offset, and the setter writes it.
pub get_field_lem :
    (f : Field) (p : Packet) → get_field f p ≡ get_header_word (width f) p (offset f)
unfolding get_version get_crate_id get_slot_number get_timing_configuration get_number_channels
    get_unix_time get_flux_ramp_increment get_flux_ramp_offset get_counter0 get_counter1
    get_counter2 get_averaging_reset_bits get_frame_counter get_tes_relay_setting
    get_external_time_clock get_control_field get_test_parameters get_number_rows
    get_number_rows_reported get_row_length get_data_rate
get_field_lem version p = refl
get_field_lem crate_id p = refl
get_field_lem slot_number p = refl
get_field_lem timing_configuration p = refl
get_field_lem number_channels p = refl
get_field_lem unix_time p = refl
get_field_lem flux_ramp_increment p = refl
get_field_lem flux_ramp_offset p = refl
get_field_lem counter0 p = refl
get_field_lem counter1 p = refl
get_field_lem counter2 p = refl
get_field_lem averaging_reset_bits p = refl
get_field_lem frame_counter p = refl
get_field_lem tes_relay_setting p = refl
get_field_lem external_time_clock p = refl
get_field_lem control_field p = refl
get_field_lem test_parameters p = refl
get_field_lem number_rows p = refl
get_field_lem number_rows_reported p = refl
get_field_lem row_length p = refl
get_field_lem data_rate p = refl

pub set_field_lem :
    (f : Field) (p : Packet) (v : ℕ) → set_field f p v ≡ set_header_word (width f) p (offset f) v
unfolding set_version set_crate_id set_slot_number set_timing_configuration set_number_channels
    set_unix_time set_flux_ramp_increment set_flux_ramp_offset set_counter0 set_counter1
    set_counter2 set_averaging_reset_bits set_frame_counter set_tes_relay_setting
    set_external_time_clock set_control_field set_test_parameters set_number_rows
    set_number_rows_reported set_row_length set_data_rate
set_field_lem version p v = refl
set_field_lem crate_id p v = refl
set_field_lem slot_number p v = refl
set_field_lem timing_configuration p v = refl
set_field_lem number_channels p v = refl
set_field_lem unix_time p v = refl
set_field_lem flux_ramp_increment p v = refl
set_field_lem flux_ramp_offset p v = refl
set_field_lem counter0 p v = refl
set_field_lem counter1 p v = refl
set_field_lem counter2 p v = refl
set_field_lem averaging_reset_bits p v = refl
set_field_lem frame_counter p v = refl
set_field_lem tes_relay_setting p v = refl
set_field_lem external_time_clock p v = refl
set_field_lem control_field p v = refl
set_field_lem test_parameters p v = refl
set_field_lem number_rows p v = refl
set_field_lem number_rows_reported p v = refl
set_field_lem row_length p v = refl
set_field_lem data_rate p v = refl
