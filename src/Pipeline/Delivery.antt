-- ===== src/Pipeline/Delivery.antt =====
-- What the two threads pass on of the packets that the processor makes.
use smurf_processor.Prelude.{
  ℕ, ◌+◌, ◌-◌, ◌≤◌, ◌≡◌, refl, sym, ◌∙◌, ap, List, [], ◌∷◌, ◌++◌, Option, ok, length, arith, All,
}
use smurf_processor.Prelude.Int.{ℤ}
use smurf_processor.Packet.{Packet, new_packet}
use smurf_processor.Filter.{Arith}
use smurf_processor.DataFile.{new_file}
use smurf_processor.DataBuffer.{new_buffer}
use smurf_processor.DataBuffer.Refine.{Represents, new_buffer-Represents}
use smurf_processor.Processor.{Processor, new_processor}
use smurf_processor.Processor.Alone.{with_ring, listed}
use smurf_processor.Processor.Runs.{IsRound, new_processor-IsReady}
use smurf_processor.Config.Usable.{IsFile}
use mathlib.Core.Path.{subst}
use smurf_processor.Pipeline.{Turn, round, transmit_turn, file_turn, Pipeline}
use smurf_processor.Pipeline.Queues.{Paced, rounds_of, IsFed}
use smurf_processor.Pipeline.Turns.{hand_over-IsFed, step_packet-IsFed}
use smurf_processor.Pipeline.Delivers.{
  Delivers, no_turn-Delivers, round-Delivers, transmit_turn-Delivers, file_turn-Delivers,
}

new_buffer-size : (new_buffer new_packet 10 2).size ≡ 10
unfolding new_buffer
new_buffer-size = refl

module _ {F : Type 0} (num : Arith F) (strtof : List ℕ → F) (sine : ℕ → ℕ → ℤ) (junk : ℕ) where
  run_turns-Delivers :
      (turns : List Turn) (k a b : ℕ) (p : Pipeline F) (q₀ q₁ : List Packet)
      → IsFed k a b p.processor q₀ q₁
      → All IsRound (rounds_of turns)
      → k + length (rounds_of turns) ≤ 32767
      → Paced a b turns
      → Delivers num strtof sine junk turns p q₀ q₁
  run_turns-Delivers [] k a b p q₀ q₁ fed good few paced =
      no_turn-Delivers num strtof sine junk p q₀ q₁ fed.shows
  run_turns-Delivers (round r ∷ turns) k a b p q₀ q₁ fed good few paced =
      let (one, e, both) =
        step_packet-IsFed num strtof sine junk k a b r p.processor q₀ q₁ good.0 (omega arith) fed in
      let (d, handed, fed') =
        hand_over-IsFed (k + 1) a b one.0 q₀ q₁ one.1 both.0 paced.0 paced.1 both.1 in
      round-Delivers num strtof sine junk turns r p one.0 one.1 d q₀ q₁ e handed (
        run_turns-Delivers turns (k + 1) (a + 1) (b + 1)
          (record p { processor = with_ring one.0 d }) (q₀ ++ listed one.1 [])
          (q₁ ++ listed one.1 []) fed' good.1 (omega arith) paced.2)
  run_turns-Delivers (transmit_turn ∷ turns) k a b p q₀ q₁ fed good few paced =
      transmit_turn-Delivers num strtof sine junk turns k a b p q₀ q₁ fed
        λ p₁ r₀ fed'. run_turns-Delivers turns k (a - 1) b p₁ r₀ q₁ fed' good few paced
  run_turns-Delivers (file_turn opened ∷ turns) k a b p q₀ q₁ fed good few paced =
      file_turn-Delivers num strtof sine junk turns opened k a b p q₀ q₁ fed
        λ p₁ r₁ fed'. run_turns-Delivers turns k a (b - 1) p₁ q₀ r₁ fed' good few paced

  -- From the constructor, the rounds of `runThread` and the turns of the two threads in any order in which fewer
  -- than 10 packets can wait for each thread when a round comes, for up to 32767 frames of bytes that
  -- fit into a buffer and settings files as `IsFile` has them: every round and turn succeeds. The
  -- packets that are made are those of a run of the rounds alone, whatever the order of the turns, and the
  -- processor ends as that run does, but for the ring. What each thread took, followed by what
  -- waits for it at the end, is exactly the packets made, in order.
  pub run_turns-new_processor :
      (one : F) (words : ℕ) (config_file : Option (List (List ℕ))) (mask_file : Option (List ℕ))
      (turns : List Turn)
      → IsFile config_file
      → All IsRound (rounds_of turns)
      → length (rounds_of turns) ≤ 32767
      → Paced 0 0 turns
      → (s₀ : Processor F) × (new_processor num strtof sine junk one words config_file mask_file
          ≡ ok s₀)
        × Delivers num strtof sine junk turns
            (record { processor = s₀; data_file = new_file })
            []
            []
  run_turns-new_processor one words config_file mask_file turns file good few paced =
      let (s₀, e, (ready, ring)) =
        new_processor-IsReady num strtof sine junk one words config_file mask_file file in
      let fed : IsFed 0 0 0 s₀ [] [] = record {
        ready = ready;
        shows =
            subst (λ d. Represents d ([] ∷ [] ∷ [])) (sym ring)
              (new_buffer-Represents new_packet 10 2 (omega arith));
        size = ap (λ d. d.size) ring ∙ new_buffer-size;
        short₀ = omega arith;
        short₁ = omega arith;
        valid = tt;
      } in
      (
        s₀,
        e,
        run_turns-Delivers turns 0 0 0 (record { processor = s₀; data_file = new_file }) [] [] fed
            good (omega arith) paced,
      )
