-- ===== src/Threads.antt =====
-- The threads around the packet ring, src/smurf_processor.cpp: a turn of the loop in `pktTansmitter`, which passes
-- a packet to `transmit`, and in `pktWriter`, which passes it to `write_file`. `transmit` is empty here and
-- left to a user. A turn on an empty ring waits, which is not modelled; `runTxThread` is not cleared.
-- `Steps` has finer steps: the calls that give slots, and, from `Parts`, the statements of the two that
-- end a write and a read.
pub mod Delivery
pub mod Filing
pub mod Steps
pub mod Placed
pub mod Races
pub mod Parts
pub mod Flags
pub mod Watch
pub mod Mixed
mod Tests
use smurf_processor.Prelude.{
  ℕ, ◌==◌, if◌then◌else◌, Bool, List, [], ◌∷◌, ◌++◌, Option, none, some, Result, ok, throw, fault,
  runtime_error, out_of_range, ◌>>=◌,
}
use smurf_processor.Prelude.Int.{ℤ}
use smurf_processor.Packet.{Packet}
use smurf_processor.Config.{Config}
use smurf_processor.DataFile.{DataFile, FileCall, write_file}
use smurf_processor.DataBuffer.{DataBuffer, is_empty, write_packet, read_packet}
use smurf_processor.DataBuffer.Spec.{Op, write, read}

module _ {ℓ} {A : Type ℓ} where
  -- `catch (std::runtime_error &e)`
  abbrev pub caught : DataBuffer A → Result A → Result (DataBuffer A × Option A)
  caught d (ok a) = ok (d, some a)
  caught d (throw runtime_error) = ok (d, none)
  caught d (throw out_of_range) = throw out_of_range
  caught d fault = fault

  -- A turn of `pktTansmitter` with the reader `i`, and the packet that was passed on
  unfoldable pub transmitter_turn : DataBuffer A → ℕ → Result (DataBuffer A × Option A)
  transmitter_turn d i = do
    empty ← is_empty d i
    let (d', out) = read_packet d i
    let passed = caught d' out
    if empty then ok (d, none) else passed

  abbrev pub logged : ℕ → Option A → List (ℕ × A) → List (ℕ × A)
  logged i none log = log
  logged i (some a) log = (i, a) ∷ log

  -- The threads in any order: `runThread` writes a packet, or the thread of a reader takes its turn. The
  -- packets that were passed on are listed with their readers.
  unfoldable pub run_threads : DataBuffer A → List (Op A) → Result (DataBuffer A × List (ℕ × A))
  run_threads d [] = ok (d, [])
  run_threads d (write a ∷ ops) = write_packet d a >>= λ d'. run_threads d' ops
  run_threads d (read i ∷ ops) = transmitter_turn d i >>= λ turn.
      run_threads turn.0 ops >>= λ rest. ok (rest.0, logged i turn.1 rest.1)

module _ {F : Type 0} (opened : ℤ) (config : Config F) where
  abbrev pub filed :
      DataBuffer Packet
      → DataFile
      → Option Packet
      → Result (DataBuffer Packet × DataFile × List FileCall)
  filed d file none = ok (d, file, [])
  filed d file (some packet) = write_file opened config file packet >>= λ out. ok (d, out.0, out.1)

  -- A turn of `pktWriter` with the reader `i`
  unfoldable pub writer_turn :
      DataBuffer Packet → DataFile → ℕ → Result (DataBuffer Packet × DataFile × List FileCall)
  writer_turn d file i = transmitter_turn d i >>= λ turn. filed turn.0 file turn.1

-- Turns of `pktWriter` one behind the other, with what `open` returns in each and the settings
unfoldable pub writer_turns :
    {F : Type 0}
    → DataBuffer Packet
    → DataFile
    → ℕ
    → List (ℤ × Config F)
    → Result (DataBuffer Packet × DataFile × List FileCall)
writer_turns d file i [] = ok (d, file, [])
writer_turns d file i ((opened, config) ∷ inputs) = writer_turn opened config d file i >>= λ one.
    writer_turns one.0 one.1 i inputs >>= λ more. ok (more.0, more.1, one.2 ++ more.2)
