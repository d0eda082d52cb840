-- ===== src/Processor/Stamp.antt =====
-- The header of a packet: the frame's, with the bias values, the time and the number of channels.
use smurf_processor.Prelude.{
  ℕ, ◌+◌, ◌%◌, ◌^◌, ◌≤◌, ◌<◌, ◌≡◌, ◌∙◌, ap, ◌⊎◌, inl, inr, List, arith, length, get_or-take,
  take-all,
}
use smurf_processor.Prelude.Int.{ℤ}
use smurf_processor.Prelude.Bytes.{
  byte_at, word, word_ext, write, le_bytes, length-le_bytes, length-write, write_inside,
  write_outside, word-write_self, word-write_apart,
}
use smurf_processor.Packet.{Packet}
use smurf_processor.Packet.Arrays.{IsMadeFrom}

abbrev pub stamp : List ℕ → ℕ → List ℕ
stamp h time = write (write h 48 (le_bytes 8 time)) 4 (le_bytes 4 528)

-- The packet of the frame `h`
pub record Carries (p : Packet) (h bias : List ℕ) (time : ℕ) (samples : List ℤ) : Type 0 where
  pub payload : p.payload_buffer ≡ samples
  pub channels : word 4 p.header_buffer 4 ≡ 528
  pub bias_values : (j : ℕ) → j < 40 → byte_at p.header_buffer (8 + j) ≡ byte_at bias j
  pub unix_time : word 8 p.header_buffer 48 ≡ time % 2 ^ 64
  pub rest : (i : ℕ) → i < 128 → (i < 4) ⊎ (56 ≤ i) → byte_at p.header_buffer i ≡ byte_at h i

module _ (h bias : List ℕ) (time : ℕ) (room : 128 ≤ length h) (full : length bias ≡ 40) where
  outside : (i : ℕ) → (i < 4) ⊎ (56 ≤ i) → byte_at (stamp (write h 8 bias) time) i ≡ byte_at h i
  outside i h' =
      write_outside (le_bytes 4 528) (write (write h 8 bias) 48 (le_bytes 8 time)) 4 i
        (omega (arith, length-le_bytes 4 528))
      ∙ write_outside (le_bytes 8 time) (write h 8 bias) 48 i
          (omega (arith, length-le_bytes 8 time))
      ∙ write_outside bias h 8 i (omega arith)

  inside : (j : ℕ) → j < 40 → byte_at (stamp (write h 8 bias) time) (8 + j) ≡ byte_at bias j
  inside j lt =
      write_outside (le_bytes 4 528) (write (write h 8 bias) 48 (le_bytes 8 time)) 4 (8 + j)
        (inr (omega (arith, length-le_bytes 4 528)))
      ∙ write_outside (le_bytes 8 time) (write h 8 bias) 48 (8 + j) (inl (omega arith))
      ∙ write_inside bias h 8 j (omega arith) (omega arith)

  stamped_time : word 8 (stamp (write h 8 bias) time) 48 ≡ time % 2 ^ 64
  stamped_time =
      word-write_apart 8 48 (le_bytes 4 528) (write (write h 8 bias) 48 (le_bytes 8 time)) 4
        (inr (omega (arith, length-le_bytes 4 528)))
      ∙ word-write_self 8 time (write h 8 bias) 48 (omega (arith, length-write bias h 8))

  stamped_channels : word 4 (stamp (write h 8 bias) time) 4 ≡ 528
  stamped_channels =
      word-write_self 4 528 (write (write h 8 bias) 48 (le_bytes 8 time)) 4
        (omega (arith, length-write (le_bytes 8 time) (write h 8 bias) 48, length-write bias h 8))

  pub stamp-Carries :
      (p : Packet) (samples : List ℤ)
      → IsMadeFrom p (stamp (write h 8 bias) time) samples
      → length samples ≡ 528
      → Carries p h bias time samples
  stamp-Carries p samples made long =
      let x = stamp (write h 8 bias) time in
      let byte =
        λ (i : ℕ) (lt : i < 128). ap (λ b. byte_at b i) made.header ∙ get_or-take 128 i x 0 lt in
      let header_word = λ (n i : ℕ) (fits : i + n ≤ 128).
        word_ext n p.header_buffer x i i λ k lt. byte (i + k) (omega arith) in
      record {
        payload = made.payload ∙ take-all 528 samples long;
        channels = header_word 4 4 (omega arith) ∙ stamped_channels;
        bias_values = λ j lt. byte (8 + j) (omega arith) ∙ inside j lt;
        unix_time = header_word 8 48 (omega arith) ∙ stamped_time;
        rest = λ i lt apart. byte i lt ∙ outside i apart;
      }
