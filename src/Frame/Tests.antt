-- ===== src/Frame/Tests.antt =====
-- Small buffers in place of the one with 0x8000 bytes.
use smurf_processor.Prelude.{
  ℕ, ◌≤◌, ◌<◌, ◌≡◌, ◌⊎◌, refl, List, [], ◌∷◌, false, ok, fault, length, replicate,
}
use smurf_processor.Prelude.Bytes.{byte_at, store, write}
use smurf_processor.Frame.{RogueFrame, accept_frame, copy_pieces, frame_to_buffer}
use smurf_processor.Frame.Laws.{frame_to_buffer_lem}

abbrev two_pieces : RogueFrame
two_pieces = record { pieces = (1 ∷ 2 ∷ []) ∷ (3 ∷ []) ∷ []; error = 0; flags = 0x200 }

copied_twice : frame_to_buffer two_pieces (9 ∷ 9 ∷ 9 ∷ 9 ∷ []) ≡ ok (1 ∷ 2 ∷ 3 ∷ 9 ∷ [])
unfolding frame_to_buffer copy_pieces store write
copied_twice = refl

accepted : accept_frame false two_pieces [] ≡ two_pieces ∷ []
unfolding accept_frame
accepted = refl

refused : accept_frame false (record two_pieces { flags = 0x300 }) [] ≡ []
unfolding accept_frame
refused = refl

frame_to_buffer_lem_example :
    ((3 ≤ 4)
      × (buffer' : List ℕ) × (frame_to_buffer two_pieces (replicate 4 9) ≡ ok buffer')
      × (length buffer' ≡ 4)
      × ((k : ℕ) → k < 3 → byte_at buffer' k ≡ byte_at (1 ∷ 2 ∷ 3 ∷ []) k)
      × ((k : ℕ) → 3 ≤ k → byte_at buffer' k ≡ byte_at (replicate 4 9) k))
    ⊎ ((4 < 3) × (frame_to_buffer two_pieces (replicate 4 9) ≡ fault))
frame_to_buffer_lem_example = frame_to_buffer_lem two_pieces (replicate 4 9)
