-- ===== src/DataFile/Tests.antt =====
-- Files of two packets, and an open that fails.
use smurf_processor.Prelude.{
  ℕ, ◌≡◌, refl, false, List, [], ◌∷◌, ◌++◌, none, some, ok, ◌>>=◌, arith, length,
}
use smurf_processor.Prelude.Int.{ℤ, pos, negsuc}
use smurf_processor.Config.{Config}
use smurf_processor.Packet.{write_to_file, Packet, new_packet, get_header_word}
use smurf_processor.Packet.Getters.{get_disable_file_write_bit, get_word_bit}
use smurf_processor.Packet.Laws.{new_packet-IsValid}
use smurf_processor.Prelude.Bytes.{load, word}
use smurf_processor.DataFile.{
  FileCall, close_file, unlink_file, open_file, write_bytes, DataFile, new_file, write_file,
}
use smurf_processor.DataFile.Calls.{write_files, replay, write_files-replay, write_file_failed_open}
use smurf_processor.DataFile.Parts.{with_config, writes, write_files-part}

-- "d", two packets in a part
abbrev config : Config ℕ
config = record {
  num_averages = pos 0;
  data_file_name = 100 ∷ [];
  file_name_extend = pos 1;
  data_frames = pos 2;
  filter_order = pos 0;
  filter_g = 1;
  filter_a = 1 ∷ [];
  filter_b = 1 ∷ [];
}

abbrev packets : List (ℤ × Packet)
packets = (pos 7, new_packet) ∷ (pos 8, new_packet) ∷ []

enabled : get_disable_file_write_bit new_packet ≡ ok false
unfolding get_disable_file_write_bit get_word_bit new_packet get_header_word load word
enabled = refl

abbrev first_name : List ℕ
first_name = 100 ∷ 46 ∷ 112 ∷ 97 ∷ 114 ∷ 116 ∷ 95 ∷ 48 ∷ 48 ∷ 48 ∷ 48 ∷ 48 ∷ []

write_files-part_example :
    (counts : List ℕ) × (write_files new_file (with_config config packets)
      ≡ ok (
        record { part = 1; filename = first_name; frame_counter = 0; fd = 0 },
        unlink_file first_name
            ∷ open_file first_name (pos 7)
            ∷ (writes 7 packets ++ close_file 7 ∷ []),
        counts,
      ))
write_files-part_example =
    write_files-part config refl (pos 7, new_packet) ((pos 8, new_packet) ∷ []) new_file
      (enabled, (enabled, tt)) refl refl (omega arith) refl

write_files-replay_example :
    (out : DataFile × List FileCall × List ℕ) × (write_files new_file (with_config config packets)
      ≡ ok out)
    × (replay out.1 0 ≡ some out.0.fd)
    × (length out.2 ≡ 2)
write_files-replay_example = write_files-replay (with_config config packets) new_file (
  (7, refl, omega arith, omega arith),
  new_packet-IsValid,
  ((8, refl, omega arith, omega arith), new_packet-IsValid, tt),
)

write_file_failed_open_example :
    (out : DataFile × List FileCall × ℕ) × (name : List ℕ) × (rest : List FileCall) × (write_file
        (negsuc 0)
        config
        new_file
        new_packet
      ≡ ok out)
    × (out.1
        ≡ unlink_file name
          ∷ open_file name (negsuc 0)
          ∷ write_bytes 4294967295 (write_to_file new_packet)
          ∷ rest)
    × (replay out.1 0 ≡ none)
write_file_failed_open_example =
    write_file_failed_open 0 config new_file new_packet (omega arith) enabled refl

-- `open` fails with -1, and the packet still counts as written
failed_open : (write_file (negsuc 0) config new_file new_packet >>= λ out. ok out.2) ≡ ok 1
unfolding write_file get_disable_file_write_bit get_word_bit new_packet get_header_word load word
failed_open = refl
