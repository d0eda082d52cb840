-- ===== src/Packet.antt =====
-- `ISmurfPacket_RO` and `ISmurfPacket` of include/smurf_packet.h and src/smurf_packet.cpp: a header of 128
-- bytes and a payload of 528 words of 32 bits. Here are the object, its buffers and the two
-- templates that read and write a header word; the children have the named getters and setters.
-- An array that a caller passes is a list; copying past its end is a fault.
pub mod Offsets
pub mod Getters
pub mod Setters
pub mod Fields
pub mod Laws
pub mod WordBits
pub mod Control
pub mod Arrays
pub mod Bias
mod Tests
use smurf_processor.Prelude.{
  ℕ, ◌+◌, ◌*◌, ◌≤◌, ◌≡◌, ltb, leb, List, [], ◌∷◌, ◌++◌, Result, ok, out_of_range, require, within,
  ◌>>=◌, ◌>>◌, length, get_or, set, take, replicate,
}
use smurf_processor.Prelude.Int.{ℤ, pos, unsigned}
use smurf_processor.Prelude.Bytes.{byte_at, IsBytes, load, store, le_bytes}

abbrev pub smurf_header_length : ℕ
smurf_header_length = 128

-- `smurfsamples`, the number of words in a payload
abbrev pub smurf_samples : ℕ
smurf_samples = 528

-- `avgdata_t` values stand as the integers that they are.
pub record Packet : Type 0 where
  pub header_length : ℕ
  pub payload_length : ℕ
  pub packet_length : ℕ
  pub header_buffer : List ℕ
  pub payload_buffer : List ℤ

-- `ISmurfPacket()`, and `create()`
unfoldable pub new_packet : Packet
new_packet = record {
  header_length = smurf_header_length;
  payload_length = smurf_samples;
  packet_length = smurf_header_length + smurf_samples * 4;
  header_buffer = replicate smurf_header_length 0;
  payload_buffer = replicate smurf_samples (pos 0);
}

pub record IsValid (p : Packet) : Type 0 where
  pub header_fixed : p.header_length ≡ smurf_header_length
  pub payload_fixed : p.payload_length ≡ smurf_samples
  pub packet_fixed : p.packet_length ≡ smurf_header_length + smurf_samples * 4
  pub header_room : length p.header_buffer ≡ p.header_length
  pub payload_room : length p.payload_buffer ≡ p.payload_length
  pub bytes : IsBytes p.header_buffer

pub get_header_length : Packet → ℕ
get_header_length p = p.header_length

pub get_payload_length : Packet → ℕ
get_payload_length p = p.payload_length

pub get_packet_length : Packet → ℕ
get_packet_length p = p.packet_length

-- `getHeaderWord<T>(offset)` for a `T` of `n` bytes
unfoldable pub get_header_word : ℕ → Packet → ℕ → Result ℕ
get_header_word n p offset = do
  require (ltb offset (length p.header_buffer)) out_of_range
  load n p.header_buffer offset

-- `setHeaderWord<T>(offset, value)` for a `T` of `n` bytes
unfoldable pub set_header_word : ℕ → Packet → ℕ → ℕ → Result Packet
set_header_word n p offset value = do
  require (ltb offset (length p.header_buffer)) out_of_range
  buf ← store p.header_buffer offset (le_bytes n value)
  ok (record p { header_buffer = buf })

pub get_header_byte : Packet → ℕ → Result ℕ
get_header_byte p i = do
  require (ltb i (length p.header_buffer)) out_of_range
  ok (byte_at p.header_buffer i)

pub set_header_byte : Packet → ℕ → ℕ → Result Packet
set_header_byte p i value = do
  require (ltb i (length p.header_buffer)) out_of_range
  ok (record p { header_buffer = set p.header_buffer i value })

pub get_value : Packet → ℕ → Result ℤ
get_value p i = do
  require (ltb i (length p.payload_buffer)) out_of_range
  ok (get_or p.payload_buffer i (pos 0))

pub set_value : Packet → ℕ → ℤ → Result Packet
set_value p i value = do
  require (ltb i (length p.payload_buffer)) out_of_range
  ok (record p { payload_buffer = set p.payload_buffer i value })

-- `copyHeader(h)`
unfoldable pub copy_header : Packet → List ℕ → Result Packet
copy_header p h = do
  within (leb p.header_length (length h))
  ok (record p { header_buffer = take p.header_length h })

-- `copyData(d)`
unfoldable pub copy_data : Packet → List ℤ → Result Packet
copy_data p d = do
  within (leb p.payload_length (length d))
  ok (record p { payload_buffer = take p.payload_length d })

-- The constructors from raw arrays, and the two other `create`s
unfoldable pub from_header : List ℕ → Result Packet
from_header h = copy_header new_packet h

unfoldable pub from_arrays : List ℕ → List ℤ → Result Packet
from_arrays h d = do p ← from_header h; copy_data p d

-- `getHeaderArray(h)` and `getDataArray(d)`: what the caller's arrays hold afterwards
pub get_header_array : Packet → List ℕ
get_header_array p = take p.header_length p.header_buffer

pub get_data_array : Packet → List ℤ
get_data_array p = take p.payload_length p.payload_buffer

-- The memory of an array of 32-bit words
unfoldable pub words_bytes : List ℤ → List ℕ
words_bytes [] = []
words_bytes (x ∷ xs) = le_bytes 4 (unsigned 32 x) ++ words_bytes xs

-- `writeToFile(fd)`: the bytes of the two calls of `write`
pub write_to_file : Packet → List ℕ
write_to_file p =
    take p.header_length p.header_buffer ++ words_bytes (take p.payload_length p.payload_buffer)
