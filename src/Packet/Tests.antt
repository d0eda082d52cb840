-- ===== src/Packet/Tests.antt =====
-- Packets at concrete values.
use smurf_processor.Prelude.{
  ℕ, ◌+◌, ◌*◌, ◌≤◌, ◌<◌, ◌≡◌, ◌≢◌, refl, ◌⊎◌, ◌==◌, if◌then◌else◌, true, List, ok, fault, ◌>>=◌,
  arith, length, take, replicate, get_or,
}
use smurf_processor.Prelude.Int.{ℤ, pos, negsuc, unsigned}
use smurf_processor.Prelude.Bytes.{byte_at, word, write, le_bytes, load, store, replicate-IsBytes}
use smurf_processor.Packet.{
  Packet, IsValid, new_packet, from_arrays, get_header_array, get_data_array, get_packet_length,
  write_to_file, get_header_word, set_header_word, smurf_header_length, smurf_samples,
}
use smurf_processor.Packet.Getters.{
  get_test_mode, get_tes_bias, get_frame_counter, get_control_field,
}
use smurf_processor.Packet.Setters.{
  set_test_mode, set_word_bit, set_tes_bias, set_frame_counter, set_clear_average_bit,
}
use smurf_processor.Packet.Fields.{Field, frame_counter, get_field, set_field}
use smurf_processor.Packet.Laws.{SetTo, set_field-SetTo, new_packet-IsValid}
use smurf_processor.Packet.Control.{
  ControlBit, disable_stream, bit_offset, get_bit, set_bit, Controls, set_bit-Controls,
}
use smurf_processor.Packet.Arrays.{IsMadeFrom, from_arrays_lem, write_to_file_lem}
use smurf_processor.Packet.Bias.{set_tes_bias_lem}

-- the counter wraps at 32 bits, and the bits of the control field are independent
counter_cut : (set_frame_counter new_packet 0x1_0000_0007 >>= get_frame_counter) ≡ ok 7
unfolding set_frame_counter get_frame_counter new_packet get_header_word set_header_word load store
    word write le_bytes
counter_cut = refl

mode_kept :
    (set_test_mode new_packet 0xfa >>= λ p. set_clear_average_bit p true >>= get_control_field)
    ≡ ok 0xa1
unfolding set_test_mode set_clear_average_bit get_control_field set_word_bit new_packet
    get_header_word set_header_word load store word write le_bytes
mode_kept = refl

set_field-SetTo_example :
    (p' : Packet) × (set_field frame_counter new_packet 70000 ≡ ok p')
    × SetTo new_packet p' frame_counter 70000
set_field-SetTo_example = set_field-SetTo frame_counter new_packet 70000 new_packet-IsValid

set_bit-Controls_example :
    (p' : Packet) × (set_bit disable_stream new_packet true ≡ ok p')
    × ((j : ControlBit)
        → get_bit j p' ≡ (if 1 == bit_offset j then ok true else get_bit j new_packet))
    × (get_test_mode p' ≡ get_test_mode new_packet)
    × Controls new_packet p'
set_bit-Controls_example = set_bit-Controls new_packet new_packet-IsValid disable_stream true

abbrev header : List ℕ
header = replicate 130 0x5a

abbrev samples : List ℤ
samples = replicate 528 (negsuc 8)

from_arrays_lem_example :
    (smurf_header_length ≤ length header
      → smurf_samples ≤ length samples
      → (p : Packet) × (from_arrays header samples ≡ ok p)
        × IsMadeFrom p header samples
        × (get_header_array p ≡ take smurf_header_length header)
        × (get_data_array p ≡ take smurf_samples samples))
    × ((length header < smurf_header_length) ⊎ (length samples < smurf_samples)
        → from_arrays header samples ≡ fault)
from_arrays_lem_example = from_arrays_lem header samples (replicate-IsBytes 130 0x5a (omega arith))

write_to_file_lem_example :
    (length (write_to_file new_packet) ≡ get_packet_length new_packet)
    × ((k : ℕ)
        → k < smurf_header_length
        → byte_at (write_to_file new_packet) k ≡ byte_at new_packet.header_buffer k)
    × ((j : ℕ)
        → j < smurf_samples
        → word 4 (write_to_file new_packet) (smurf_header_length + 4 * j)
          ≡ unsigned 32 (get_or new_packet.payload_buffer j (pos 0)))
write_to_file_lem_example = write_to_file_lem new_packet new_packet-IsValid

set_tes_bias_lem_example :
    (p' : Packet) × (set_tes_bias new_packet 15 (negsuc 4) ≡ ok p')
    × IsValid p'
    × (get_tes_bias p' 15 ≡ ok (negsuc 4))
    × ((j : ℕ) → j < 16 → j ≢ 15 → get_tes_bias p' j ≡ get_tes_bias new_packet j)
    × ((f : Field) → get_field f p' ≡ get_field f new_packet)
set_tes_bias_lem_example =
    set_tes_bias_lem new_packet 15 (negsuc 4) new_packet-IsValid (omega arith)
      (record { above = omega arith; below = omega arith })
