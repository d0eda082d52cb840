-- ===== src/Threads/Filing.antt =====
-- What the file writer's thread writes of the packets that wait for it.
use smurf_processor.Prelude.{
  ℕ, ◌≡◌, refl, List, [], ◌∷◌, ◌++◌, some, ok, arith, length, get_elem?, set, get_elem?-set_self,
  All, true,
}
use smurf_processor.Prelude.Int.{ℤ}
use smurf_processor.Packet.{Packet, IsValid}
use smurf_processor.Config.{Config}
use smurf_processor.DataFile.{DataFile, FileCall}
use smurf_processor.DataFile.Calls.{write_files, write_file_total}
use smurf_processor.DataBuffer.{DataBuffer, is_empty}
use smurf_processor.DataBuffer.Refine.{Represents}
use smurf_processor.DataBuffer.Empty.{is_empty-Represents}
use smurf_processor.Threads.{writer_turn, writer_turns}
use smurf_processor.Threads.Delivery.{turn_passes, in_range}

module _ {F : Type 0} where
  -- The calls of `write_file` with these packets
  abbrev pub calls_with : List (ℤ × Config F) → List Packet → List (ℤ × Config F × Packet)
  calls_with [] packets = []
  calls_with (input ∷ inputs) [] = []
  calls_with ((opened, config) ∷ inputs) (p ∷ packets) =
      (opened, config, p) ∷ calls_with inputs packets

  -- Where valid packets wait for the file writer, as many turns of its thread succeed and make the system calls
  -- that a sequence of `write_file` on these packets in their order makes, and leave its state, each
  -- turn with the result of `open` and the settings it is given; the ring is empty for the writer
  -- behind them.
  pub writer_turns-write_files :
      (inputs : List (ℤ × Config F)) (q : List Packet) (d : DataBuffer Packet) (file : DataFile)
      (qs : List (List Packet)) (i : ℕ)
      → Represents d qs
      → get_elem? qs i ≡ some q
      → length inputs ≡ length q
      → All IsValid q
      → (d' : DataBuffer Packet) × (file' : DataFile) × (calls : List FileCall) × (results : List ℕ)
        × (writer_turns d file i inputs ≡ ok (d', file', calls))
        × (write_files file (calls_with inputs q) ≡ ok (file', calls, results))
        × (is_empty d' i ≡ ok true)
  unfolding writer_turns write_files writer_turn
  writer_turns-write_files [] [] d file qs i v e same valid =
      (d, file, [], [], refl, refl, is_empty-Represents d qs i [] v e)
  writer_turns-write_files [] (p ∷ q) d file qs i v e same valid = absurd (omega (arith, same))
  writer_turns-write_files (input ∷ inputs) [] d file qs i v e same valid =
      absurd (omega (arith, same))
  writer_turns-write_files ((opened, config) ∷ inputs) (p ∷ q) d file qs i v e same valid =
      let (d₁, e₁, v₁, size) = turn_passes d qs i p q v e in
      let (one, e₂) = write_file_total opened config file p valid.0 in
      let (d', file', calls, results, e', e'', empty) =
        writer_turns-write_files inputs q d₁ one.0 (set qs i q) i v₁
          (get_elem?-set_self qs i q (in_range qs i (p ∷ q) e)) (omega (arith, same)) valid.1 in
      (d', file', one.1 ++ calls, one.2 ∷ results, rw (e₁, e₂, e') refl, rw (e₂, e'') refl, empty)
