-- ===== src/Pipeline/Queues.antt =====
-- The queues of the two threads' packets, and how long they can be behind a sequence of turns.
use smurf_processor.Prelude.{ℕ, ◌+◌, ◌-◌, ◌<◌, ◌≤◌, ◌≡◌, List, [], ◌∷◌, length, All}
use smurf_processor.Packet.{Packet, IsValid}
use smurf_processor.Processor.{Round, Processor}
use smurf_processor.Processor.Ready.{IsReady}
use smurf_processor.DataBuffer.Refine.{Represents}
use smurf_processor.Pipeline.{Turn, round, transmit_turn, file_turn}

-- At most `a` packets wait for the transmitter and `b` for the file writer, and fewer than 10 for each when a
-- round comes, which makes one packet at most.
abbrev pub Paced : ℕ → ℕ → List Turn → Type 0
Paced a b [] = Unit
Paced a b (round r ∷ turns) = (a < 10) × (b < 10) × Paced (a + 1) (b + 1) turns
Paced a b (transmit_turn ∷ turns) = Paced (a - 1) b turns
Paced a b (file_turn opened ∷ turns) = Paced a (b - 1) turns

abbrev pub rounds_of : List Turn → List Round
rounds_of [] = []
rounds_of (round r ∷ turns) = r ∷ rounds_of turns
rounds_of (transmit_turn ∷ turns) = rounds_of turns
rounds_of (file_turn opened ∷ turns) = rounds_of turns

-- The state between two turns: the processor is ready, and these packets wait for the two threads.
pub record IsFed {F : Type 0} (k a b : ℕ) (s : Processor F) (q₀ q₁ : List Packet) : Type 0 where
  pub ready : IsReady k s
  pub shows : Represents s.tx_buffer (q₀ ∷ q₁ ∷ [])
  pub size : s.tx_buffer.size ≡ 10
  pub short₀ : length q₀ ≤ a
  pub short₁ : length q₁ ≤ b
  pub valid : All IsValid q₁
