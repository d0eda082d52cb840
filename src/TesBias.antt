-- ===== src/TesBias.antt =====
-- `TesBiasArray` of include/tes_bias_array.h and src/tes_bias_array.cpp: sixteen signed 20-bit values,
-- packed two to five bytes. `pData` is a position in a buffer that the caller owns: the header of
-- a packet or the processor's own array. The mutex only guards callers and is not modelled here.
pub mod Layout
pub mod Laws
mod Tests
use smurf_processor.Prelude.{
  ℕ, ◌+◌, ◌*◌, ◌/◌, ◌%◌, ◌^◌, bit_and, bit_or, ltb, leb, ◌==◌, if◌then◌else◌, not, List, Result, ok,
  runtime_error, require, ◌>>=◌, ◌>>◌,
}
use smurf_processor.Prelude.Int.{ℤ, signed, unsigned}
use smurf_processor.Prelude.Bytes.{peek, poke, load}

abbrev pub tes_bias_count : ℕ
tes_bias_count = 16

abbrev pub tes_bias_buffer_size : ℕ
tes_bias_buffer_size = tes_bias_count * 20 / 8

pub record WordIndex : Type 0 where
  pub index : ℕ
  pub block : ℕ
  pub sub_index : ℕ

abbrev pub word_index : ℕ → WordIndex
word_index i = record { index = i; block = i / 2; sub_index = i % 2 }

-- `v.byte[k]` of the union
abbrev pub byte_of : ℕ → ℕ → ℕ
byte_of v k = v / 256 ^ k % 256

-- `setWord` on the first word of a block at `b`
pub set_first : List ℕ → ℕ → ℕ → Result (List ℕ)
set_first buf b v = do
  buf₁ ← poke buf b (byte_of v 0)
  buf₂ ← poke buf₁ (b + 1) (byte_of v 1)
  temp ← peek buf₂ (b + 2)
  poke buf₂ (b + 2) (bit_or (bit_and temp 0xf0) (bit_and (byte_of v 2) 0x0f))

-- and on the second, from the shared byte at `b` on
pub set_second : List ℕ → ℕ → ℕ → Result (List ℕ)
set_second buf b v = do
  temp ← peek buf b
  buf₁ ← poke buf b (bit_or (bit_and temp 0x0f) (bit_and (byte_of v 0) 0xf0))
  buf₂ ← poke buf₁ (b + 1) (byte_of v 1)
  poke buf₂ (b + 2) (byte_of v 2)

-- `setWord(index, value)` with `pData` at position `p` of the buffer
pub set_word : List ℕ → ℕ → ℕ → ℤ → Result (List ℕ)
set_word buf p i value = do
  let index = word_index i
  require (not (leb tes_bias_count index.index)) runtime_error
  if index.sub_index == 0
      then set_first buf (p + 5 * index.block) (unsigned 32 value)
      else set_second buf (p + 5 * index.block + 2) (unsigned 32 value * 2 ^ 4 % 2 ^ 32)

-- `getWord(index)`: four bytes are read, of which the bit field keeps 20 bits
pub get_word : List ℕ → ℕ → ℕ → Result ℤ
get_word buf p i = do
  let index = word_index i
  require (not (leb tes_bias_count index.index)) runtime_error
  let offset = if index.sub_index == 0 then 0 else 2
  let shift = if index.sub_index == 0 then 0 else 4
  w ← load 4 buf (p + 5 * index.block + offset)
  ok (signed 20 (w / 2 ^ shift))
