-- ===== src/Packet/Fields/Places.antt =====
-- Where the named words of the header lie: within it, and no two of them meet.
use smurf_processor.Prelude.{
  ℕ, ◌+◌, ◌≤◌, ◌<◌, ◌≡◌, ◌≢◌, refl, ap, ◌⊎◌, ◌&&◌, ◌||◌, ◌==◌, leb, if◌then◌else◌, Bool, true,
  Option, none, some, List, [], ◌∷◌, zero, suc, get_elem?, arith,
}
use smurf_processor.Packet.{smurf_header_length}
use smurf_processor.Packet.Offsets.{
  header_version_offset, header_crate_id_offset, header_slot_number_offset,
  header_timing_configuration_offset, header_number_channel_offset, header_unix_time_offset,
  header_flux_ramp_increment_offset, header_flux_ramp_offset_offset, header_counter0_offset,
  header_counter1_offset, header_counter2_offset, header_averaging_reset_bits_offset,
  header_frame_counter_offset, header_tes_relay_setting_offset, header_external_time_clock_offset,
  header_control_field_offset, header_test_parameters_offset, header_number_rows_offset,
  header_number_rows_reported_offset, header_row_length_offset, header_data_rate_offset,
}
use smurf_processor.Packet.Fields.{
  Field, version, crate_id, slot_number, timing_configuration, number_channels, unix_time,
  flux_ramp_increment, flux_ramp_offset, counter0, counter1, counter2, averaging_reset_bits,
  frame_counter, tes_relay_setting, external_time_clock, control_field, test_parameters,
  number_rows, number_rows_reported, row_length, data_rate, offset, width,
}

-- All of them, in the order of the header
fields : List Field
fields =
    version ∷ crate_id ∷ slot_number ∷ timing_configuration ∷ number_channels ∷ unix_time
    ∷ flux_ramp_increment ∷ flux_ramp_offset ∷ counter0 ∷ counter1 ∷ counter2 ∷ averaging_reset_bits
    ∷ frame_counter ∷ tes_relay_setting ∷ external_time_clock ∷ control_field ∷ test_parameters
    ∷ number_rows ∷ number_rows_reported ∷ row_length ∷ data_rate ∷ []

index : Field → ℕ
index version = 0
index crate_id = 1
index slot_number = 2
index timing_configuration = 3
index number_channels = 4
index unix_time = 5
index flux_ramp_increment = 6
index flux_ramp_offset = 7
index counter0 = 8
index counter1 = 9
index counter2 = 10
index averaging_reset_bits = 11
index frame_counter = 12
index tes_relay_setting = 13
index external_time_clock = 14
index control_field = 15
index test_parameters = 16
index number_rows = 17
index number_rows_reported = 18
index row_length = 19
index data_rate = 20

every : List Field → (Field → Bool) → Bool
every [] p = true
every (f ∷ fs) p = p f && every fs p

every_at :
    (fs : List Field) (p : Field → Bool) (i : ℕ) {f : Field}
    → every fs p ≡ true
    → get_elem? fs i ≡ some f
    → p f ≡ true
unfolding every
every_at [] p i h e = cc
every_at (x ∷ xs) p zero {f} h e = ground arith
every_at (x ∷ xs) p (suc i) {f} h e = every_at xs p i (ground arith) e

at_index : (f : Field) → get_elem? fields (index f) ≡ some f
unfolding fields index
at_index version = refl
at_index crate_id = refl
at_index slot_number = refl
at_index timing_configuration = refl
at_index number_channels = refl
at_index unix_time = refl
at_index flux_ramp_increment = refl
at_index flux_ramp_offset = refl
at_index counter0 = refl
at_index counter1 = refl
at_index counter2 = refl
at_index averaging_reset_bits = refl
at_index frame_counter = refl
at_index tes_relay_setting = refl
at_index external_time_clock = refl
at_index control_field = refl
at_index test_parameters = refl
at_index number_rows = refl
at_index number_rows_reported = refl
at_index row_length = refl
at_index data_rate = refl

-- Every word ends within the header.
pub field_fits : (f : Field) → offset f + width f ≤ smurf_header_length
field_fits version = omega arith
field_fits crate_id = omega arith
field_fits slot_number = omega arith
field_fits timing_configuration = omega arith
field_fits number_channels = omega arith
field_fits unix_time = omega arith
field_fits flux_ramp_increment = omega arith
field_fits flux_ramp_offset = omega arith
field_fits counter0 = omega arith
field_fits counter1 = omega arith
field_fits counter2 = omega arith
field_fits averaging_reset_bits = omega arith
field_fits frame_counter = omega arith
field_fits tes_relay_setting = omega arith
field_fits external_time_clock = omega arith
field_fits control_field = omega arith
field_fits test_parameters = omega arith
field_fits number_rows = omega arith
field_fits number_rows_reported = omega arith
field_fits row_length = omega arith
field_fits data_rate = omega arith

-- The field that starts at an offset
field_at : ℕ → Option Field
field_at i =
    if i == header_version_offset
    then some version
    else (if i == header_crate_id_offset
        then some crate_id
        else (if i == header_slot_number_offset
            then some slot_number
            else (if i == header_timing_configuration_offset
                then some timing_configuration
                else (if i == header_number_channel_offset
                    then some number_channels
                    else (if i == header_unix_time_offset
                        then some unix_time
                        else (if i == header_flux_ramp_increment_offset
                            then some flux_ramp_increment
                            else (if i == header_flux_ramp_offset_offset
                                then some flux_ramp_offset
                                else (if i == header_counter0_offset
                                    then some counter0
                                    else (if i == header_counter1_offset
                                        then some counter1
                                        else (if i == header_counter2_offset
                                            then some counter2
                                            else (if i == header_averaging_reset_bits_offset
                                                then some averaging_reset_bits
                                                else (if i == header_frame_counter_offset
                                                    then some frame_counter
                                                    else (if i == header_tes_relay_setting_offset
                                                        then some tes_relay_setting
                                                        else (if i
                                                            == header_external_time_clock_offset
                                                            then some external_time_clock
                                                            else (if i
                                                            == header_control_field_offset
                                                            then some control_field
                                                            else (if i
                                                            == header_test_parameters_offset
                                                            then some test_parameters
                                                            else (if i == header_number_rows_offset
                                                            then some number_rows
                                                            else (if i
                                                            == header_number_rows_reported_offset
                                                            then some number_rows_reported
                                                            else (if i == header_row_length_offset
                                                            then some row_length
                                                            else (if i == header_data_rate_offset
                                                            then some data_rate
                                                            else (none)))))))))))))))))))))

field_at-offset : (f : Field) → field_at (offset f) ≡ some f
unfolding field_at
field_at-offset version = refl
field_at-offset crate_id = refl
field_at-offset slot_number = refl
field_at-offset timing_configuration = refl
field_at-offset number_channels = refl
field_at-offset unix_time = refl
field_at-offset flux_ramp_increment = refl
field_at-offset flux_ramp_offset = refl
field_at-offset counter0 = refl
field_at-offset counter1 = refl
field_at-offset counter2 = refl
field_at-offset averaging_reset_bits = refl
field_at-offset frame_counter = refl
field_at-offset tes_relay_setting = refl
field_at-offset external_time_clock = refl
field_at-offset control_field = refl
field_at-offset test_parameters = refl
field_at-offset number_rows = refl
field_at-offset number_rows_reported = refl
field_at-offset row_length = refl
field_at-offset data_rate = refl

offset-injective : (f g : Field) → offset f ≡ offset g → f ≡ g
offset-injective f g e = cc (field_at-offset f, field_at-offset g, ap field_at e)

abbrev apartb : Field → Field → Bool
apartb f g =
    offset f == offset g
    || (leb (offset f + width f) (offset g) || leb (offset g + width g) (offset f))

apart_table : every fields (λ f. every fields (apartb f)) ≡ true
unfolding every fields
apart_table = refl

-- Two fields do not meet.
pub apart :
    (f g : Field) → f ≢ g → (offset f + width f ≤ offset g) ⊎ (offset g + width g ≤ offset f)
apart f g ne =
    let clash : offset f ≢ offset g = λ e. ne (offset-injective f g e) in
    let row = every_at fields (λ f. every fields (apartb f)) (index f) apart_table (at_index f) in
    let cell : apartb f g ≡ true = every_at fields (apartb f) (index g) row (at_index g) in
    ground arith

pub width-pos : (f : Field) → 0 < width f
width-pos version = omega arith
width-pos crate_id = omega arith
width-pos slot_number = omega arith
width-pos timing_configuration = omega arith
width-pos number_channels = omega arith
width-pos unix_time = omega arith
width-pos flux_ramp_increment = omega arith
width-pos flux_ramp_offset = omega arith
width-pos counter0 = omega arith
width-pos counter1 = omega arith
width-pos counter2 = omega arith
width-pos averaging_reset_bits = omega arith
width-pos frame_counter = omega arith
width-pos tes_relay_setting = omega arith
width-pos external_time_clock = omega arith
width-pos control_field = omega arith
width-pos test_parameters = omega arith
width-pos number_rows = omega arith
width-pos number_rows_reported = omega arith
width-pos row_length = omega arith
width-pos data_rate = omega arith

-- The TES DAC bytes meet no field.
pub apart-tes : (f : Field) → (offset f + width f ≤ 8) ⊎ (48 ≤ offset f)
apart-tes version = omega arith
apart-tes crate_id = omega arith
apart-tes slot_number = omega arith
apart-tes timing_configuration = omega arith
apart-tes number_channels = omega arith
apart-tes unix_time = omega arith
apart-tes flux_ramp_increment = omega arith
apart-tes flux_ramp_offset = omega arith
apart-tes counter0 = omega arith
apart-tes counter1 = omega arith
apart-tes counter2 = omega arith
apart-tes averaging_reset_bits = omega arith
apart-tes frame_counter = omega arith
apart-tes tes_relay_setting = omega arith
apart-tes external_time_clock = omega arith
apart-tes control_field = omega arith
apart-tes test_parameters = omega arith
apart-tes number_rows = omega arith
apart-tes number_rows_reported = omega arith
apart-tes row_length = omega arith
apart-tes data_rate = omega arith
