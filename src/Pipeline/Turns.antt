-- ===== src/Pipeline/Turns.antt =====
-- What each kind of turn does to the two queues.
use smurf_processor.Prelude.{
  ℕ, ◌+◌, ◌<◌, ◌≤◌, ◌≡◌, refl, sym, ◌∙◌, ap, List, [], ◌∷◌, ◌++◌, append-nil, Option, none, some,
  ok, ◌>>=◌, length, length-append, arith, All,
}
use smurf_processor.Prelude.Int.{ℤ}
use mathlib.Core.Path.{subst}
use smurf_processor.Packet.{Packet, IsValid}
use smurf_processor.Filter.{Arith}
use smurf_processor.DataBuffer.{DataBuffer}
use smurf_processor.DataBuffer.Refine.{Represents, write_packet-Represents}
use smurf_processor.Processor.{Round, Processor}
use smurf_processor.Processor.Alone.{with_ring, hand_over, listed, step_packet, run_packets}
use smurf_processor.Processor.Ringless.{on_ring, run_packets-with_ring, step_packet-tx_buffer}
use smurf_processor.Processor.Ready.{Gives, IsReady, put-IsReady}
use smurf_processor.Processor.Output.{IsMade}
use smurf_processor.Processor.Runs.{IsRound, step_packet-IsReady}
use smurf_processor.Pipeline.Queues.{IsFed}

All-append : (q r : List Packet) → All IsValid q → All IsValid r → All IsValid (q ++ r)
All-append [] r a b = b
All-append (x ∷ q) r a b = (a.0, All-append q r a.1 b)

listed-IsValid : (out : Option Packet) → IsMade out → All IsValid (listed out [])
listed-IsValid none made = tt
listed-IsValid (some p) made = (made, tt)

module _ {F : Type 0} where
  -- Another ring, and the queues in it
  pub with_ring-IsFed :
      (k a b : ℕ) (s : Processor F) (d : DataBuffer Packet) (q₀ q₁ : List Packet)
      → IsReady k s
      → Represents d (q₀ ∷ q₁ ∷ [])
      → d.size ≡ 10
      → length q₀ ≤ a
      → length q₁ ≤ b
      → All IsValid q₁
      → IsFed k a b (with_ring s d) q₀ q₁
  with_ring-IsFed k a b s d q₀ q₁ ready shows size short₀ short₁ valid = record {
    ready = put-IsReady k s d shows.write_in ready;
    shows = shows;
    size = size;
    short₀ = short₀;
    short₁ = short₁;
    valid = valid;
  }

  -- A packet that is handed over stands at the end of both queues.
  pub hand_over-IsFed :
      (k a b : ℕ) (s : Processor F) (q₀ q₁ : List Packet) (out : Option Packet)
      → IsFed k a b s q₀ q₁
      → a < 10
      → b < 10
      → IsMade out
      → (d : DataBuffer Packet) × (hand_over (s, out) ≡ ok (with_ring s d))
        × IsFed k (a + 1) (b + 1) (with_ring s d) (q₀ ++ listed out []) (q₁ ++ listed out [])
  hand_over-IsFed k a b s q₀ q₁ none fed room₀ room₁ made = (
    s.tx_buffer,
    refl,
    rw (append-nil q₀, append-nil q₁)
        (with_ring-IsFed k (a + 1) (b + 1) s s.tx_buffer q₀ q₁ fed.ready fed.shows fed.size
          (omega (arith, fed.short₀)) (omega (arith, fed.short₁)) fed.valid),
  )
  hand_over-IsFed k a b s q₀ q₁ (some p) fed room₀ room₁ made =
      let (d, e, shows, size) =
        write_packet-Represents s.tx_buffer (q₀ ∷ q₁ ∷ []) p fed.shows
          (omega (arith, fed.short₀, fed.size), (omega (arith, fed.short₁, fed.size), tt)) in
      (
        d,
        rw e refl,
        with_ring-IsFed k (a + 1) (b + 1) s d (q₀ ++ (p ∷ [])) (q₁ ++ (p ∷ [])) fed.ready shows
            (size ∙ fed.size) (omega (arith, fed.short₀, length-append q₀ (p ∷ [])))
            (omega (arith, fed.short₁, length-append q₁ (p ∷ [])))
            (All-append q₁ (p ∷ []) fed.valid (made, tt)),
      )

  module _ (num : Arith F) (strtof : List ℕ → F) (sine : ℕ → ℕ → ℤ) (junk : ℕ) where
    -- A run's packets, from the run on another ring
    pub run_packets-back :
        (rounds : List Round) (s alone : Processor F) (d : DataBuffer Packet) (made : List Packet)
        → run_packets num strtof sine junk rounds (with_ring s d) ≡ ok (alone, made)
        → run_packets num strtof sine junk rounds s ≡ ok (with_ring alone s.tx_buffer, made)
    run_packets-back rounds s alone d made e =
        run_packets-with_ring s.tx_buffer num strtof sine junk rounds (with_ring s d)
        ∙ ap (λ m. m >>= on_ring s.tx_buffer) e

    pub step_packet-IsFed :
        (k a b : ℕ) (r : Round) (s : Processor F) (q₀ q₁ : List Packet)
        → IsRound r
        → k < 32767
        → IsFed k a b s q₀ q₁
        → Gives
            (λ out. IsFed (k + 1) a b out.0 q₀ q₁ × IsMade out.1)
            (step_packet num strtof sine junk r s)
    step_packet-IsFed k a b r s q₀ q₁ good few fed =
        let (out, e, both) = step_packet-IsReady num strtof sine junk k r s good few fed.ready in
        let same = step_packet-tx_buffer s.tx_buffer num strtof sine junk r s out.0 out.1 refl e in
        (
          out,
          e,
          (
            record {
              ready = both.0;
              shows = subst (λ d. Represents d (q₀ ∷ q₁ ∷ [])) (sym same) fed.shows;
              size = ap (λ d. d.size) same ∙ fed.size;
              short₀ = fed.short₀;
              short₁ = fed.short₁;
              valid = fed.valid;
            },
            both.1,
          ),
        )
