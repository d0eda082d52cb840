-- ===== src/Pipeline.antt =====
-- The three threads of `SmurfProcessor` on the objects that they share, src/smurf_processor.cpp: a round of `runThread`, a
-- turn of `pktTansmitter` and a turn of `pktWriter`, in any order. The ring and the settings are the
-- processor's own, so that the file writer sees the settings as the last round left them.
pub mod Queues
pub mod Turns
pub mod Delivers
pub mod Delivery
mod Tests
use smurf_processor.Prelude.{ℕ, List, [], ◌∷◌, ◌++◌, Option, Result, ok, ◌>>=◌}
use smurf_processor.Prelude.Int.{ℤ}
use smurf_processor.Packet.{Packet}
use smurf_processor.Filter.{Arith}
use smurf_processor.DataFile.{DataFile, FileCall}
use smurf_processor.Processor.{Round, Processor, step}
use smurf_processor.Processor.Alone.{with_ring}
use smurf_processor.Threads.{transmitter_turn, filed, logged}

-- `pktReaderIndexTx` and `pktReaderIndexFile`
abbrev pub pkt_reader_index_tx : ℕ
pkt_reader_index_tx = 0

abbrev pub pkt_reader_index_file : ℕ
pkt_reader_index_file = 1

-- `file_turn opened`: what `open` returns, if the turn opens a file
pub data Turn : Type 0 where
  round : Round → Turn
  transmit_turn : Turn
  file_turn : ℤ → Turn

pub record Pipeline (F : Type 0) : Type 0 where
  pub processor : Processor F
  pub data_file : DataFile

-- The packets that the two threads took, with their reader's index, and the calls on the file
pub record Effects : Type 0 where
  pub taken : List (ℕ × Packet)
  pub calls : List FileCall

abbrev pub no_effects : Effects
no_effects = record { taken = []; calls = [] }

abbrev pub joined_effects : Effects → Effects → Effects
joined_effects a b = record { taken = a.taken ++ b.taken; calls = a.calls ++ b.calls }

module _ {F : Type 0} (num : Arith F) (strtof : List ℕ → F) (sine : ℕ → ℕ → ℤ) (junk : ℕ) where
  unfoldable pub turn : Turn → Pipeline F → Result (Pipeline F × Effects)
  turn (round r) p = do
    s ← step num strtof sine junk r p.processor
    ok (record p { processor = s }, no_effects)
  turn transmit_turn p = do
    (d, packet) ← transmitter_turn p.processor.tx_buffer pkt_reader_index_tx
    ok (
      record p { processor = with_ring p.processor d },
      record { taken = logged pkt_reader_index_tx packet []; calls = [] },
    )
  turn (file_turn opened) p = do
    (d, packet) ← transmitter_turn p.processor.tx_buffer pkt_reader_index_file
    (d', file, calls) ← filed opened p.processor.config d p.data_file packet
    ok (
      record { processor = with_ring p.processor d'; data_file = file },
      record { taken = logged pkt_reader_index_file packet []; calls = calls },
    )

  unfoldable pub run_turns : List Turn → Pipeline F → Result (Pipeline F × Effects)
  run_turns [] p = ok (p, no_effects)
  run_turns (t ∷ turns) p =
      turn t p >>= λ one. run_turns turns one.0 >>= λ more. ok (more.0, joined_effects one.1 more.1)
