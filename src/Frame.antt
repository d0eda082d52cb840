-- ===== src/Frame.antt =====
-- A frame on its way into the processor, src/smurf_processor.cpp: `acceptFrame`, `frameToBuffer`, and the raw
-- samples behind the header in the buffer. The queue and the frame are rogue's: a queue is a list, and a
-- frame the contents of its buffers, with what rogue says of its error and its flags.
pub mod Laws
mod Tests
use smurf_processor.Prelude.{
  ℕ, ◌+◌, ◌*◌, ◌%◌, ◌^◌, ◌==◌, if◌then◌else◌, Bool, not, ◌||◌, bit_and, List, [], ◌∷◌, ◌++◌, Result,
  ok, ◌>>=◌, length, tabulate,
}
use smurf_processor.Prelude.Int.{ℤ, signed, unsigned}
use smurf_processor.Prelude.Bytes.{word, store, le_bytes}

-- `b[j]`, with its `pyrogue_buffer_length` bytes
abbrev pub pyrogue_buffer_length : ℕ
pyrogue_buffer_length = 0x8000

pub record RogueFrame : Type 0 where
  pub pieces : List (List ℕ)
  pub error : ℕ
  pub flags : ℕ

-- `acceptFrame(frame)`, where the queue says whether it is busy
unfoldable pub accept_frame : Bool → RogueFrame → List RogueFrame → List RogueFrame
accept_frame busy frame queue =
    if busy || not (frame.error == 0) || not (bit_and frame.flags 0x100 == 0)
    then queue
    else queue ++ frame ∷ []

-- The loop of `frameToBuffer`, with `dst` as a place in the buffer
unfoldable pub copy_pieces : List (List ℕ) → List ℕ → ℕ → Result (List ℕ)
copy_pieces [] buffer dst = ok buffer
copy_pieces (piece ∷ pieces) buffer dst =
    store buffer dst piece >>= λ buffer'. copy_pieces pieces buffer' (dst + length piece)

unfoldable pub frame_to_buffer : RogueFrame → List ℕ → Result (List ℕ)
frame_to_buffer frame buffer = copy_pieces frame.pieces buffer 0

-- `n` samples of 16 bits in the buffer, from the `j`-th on
unfoldable pub samples_from : ℕ → ℕ → List ℕ → List ℤ
samples_from n j buffer = tabulate n j (λ i. signed 16 (word 2 buffer (128 + 2 * i)))

-- The memory of an array of 16-bit samples
unfoldable pub samples_bytes : List ℤ → List ℕ
samples_bytes [] = []
samples_bytes (x ∷ xs) = le_bytes 2 (unsigned 16 x) ++ samples_bytes xs

-- What the buffer holds after the samples were overwritten
unfoldable pub store_samples : List ℕ → List ℤ → Result (List ℕ)
store_samples buffer xs = store buffer 128 (samples_bytes xs)
