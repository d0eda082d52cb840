-- ===== src/Pipeline/Delivers.antt =====
-- What a run of turns gives, put together from its first turn and the rest.
use smurf_processor.Prelude.{
  ℕ, ◌-◌, ◌≡◌, refl, sym, ◌∙◌, ap, List, [], ◌∷◌, ◌++◌, append_assoc, append-nil, Option, none,
  some, ok, arith,
}
use smurf_processor.Prelude.Int.{ℤ}
use smurf_processor.Packet.{Packet}
use smurf_processor.Filter.{Arith}
use smurf_processor.DataFile.Calls.{write_file_total}
use smurf_processor.DataBuffer.{DataBuffer}
use smurf_processor.DataBuffer.Refine.{Represents}
use smurf_processor.Processor.{Round, Processor, step}
use smurf_processor.Processor.Alone.{
  with_ring, hand_over, listed, step_packet, run_packets, step-step_packet,
}
use smurf_processor.Threads.Delivery.{taken, turn_waits, turn_passes}
use smurf_processor.Pipeline.{
  Turn, round, transmit_turn, file_turn, Pipeline, Effects, turn, run_turns, joined_effects,
  no_effects,
}
use smurf_processor.Pipeline.Queues.{rounds_of, IsFed}
use smurf_processor.Pipeline.Turns.{with_ring-IsFed, run_packets-back}

listed-append :
    (q : List Packet) (out : Option Packet) (made : List Packet)
    → (q ++ listed out []) ++ made ≡ q ++ listed out made
listed-append q none made = ap (λ x. x ++ made) (append-nil q)
listed-append q (some p) made = append_assoc q (p ∷ []) made

module _ {F : Type 0} (num : Arith F) (strtof : List ℕ → F) (sine : ℕ → ℕ → ℤ) (junk : ℕ) where
  -- The run succeeds. The processor ends as it does in a run of the rounds alone, which makes the packets
  -- `made`; each thread's packets and those that wait for it are those that waited and were made.
  pub record Delivers (turns : List Turn) (p : Pipeline F) (q₀ q₁ : List Packet) : Type 0 where
    pub final : Pipeline F
    pub out : Effects
    pub alone : Processor F
    pub made : List Packet
    pub left₀ : List Packet
    pub left₁ : List Packet
    pub runs : run_turns num strtof sine junk turns p ≡ ok (final, out)
    pub runs_alone :
        run_packets num strtof sine junk (rounds_of turns) p.processor ≡ ok (alone, made)
    pub same : final.processor ≡ with_ring alone final.processor.tx_buffer
    pub shows : Represents final.processor.tx_buffer (left₀ ∷ left₁ ∷ [])
    pub order₀ : taken 0 out.taken ++ left₀ ≡ q₀ ++ made
    pub order₁ : taken 1 out.taken ++ left₁ ≡ q₁ ++ made

  -- A round, and the turns behind it
  pub round-Delivers :
      (turns : List Turn) (r : Round) (p : Pipeline F) (s₁ : Processor F) (out : Option Packet)
      (d : DataBuffer Packet) (q₀ q₁ : List Packet)
      → step_packet num strtof sine junk r p.processor ≡ ok (s₁, out)
      → hand_over (s₁, out) ≡ ok (with_ring s₁ d)
      → Delivers turns
          (record p { processor = with_ring s₁ d })
          (q₀ ++ listed out [])
          (q₁ ++ listed out [])
      → Delivers (round r ∷ turns) p q₀ q₁
  unfolding run_turns turn run_packets
  round-Delivers turns r p s₁ out d q₀ q₁ e handed more =
      let stepped : step num strtof sine junk r p.processor ≡ ok (with_ring s₁ d) =
        step-step_packet num strtof sine junk r p.processor ∙ rw e handed in
      let back =
        run_packets-back num strtof sine junk (rounds_of turns) s₁ more.alone d more.made
          more.runs_alone in
      record {
        final = more.final;
        out = more.out;
        alone = with_ring more.alone s₁.tx_buffer;
        made = listed out more.made;
        left₀ = more.left₀;
        left₁ = more.left₁;
        runs = rw (stepped, more.runs) refl;
        runs_alone = rw (e, back) refl;
        same = more.same;
        shows = more.shows;
        order₀ = more.order₀ ∙ listed-append q₀ out more.made;
        order₁ = more.order₁ ∙ listed-append q₁ out more.made;
      }

  -- A turn that only changes the ring and the file, and the turns behind it
  turn-Delivers :
      (turns : List Turn) (t : Turn) (p p₁ : Pipeline F) (out : Effects) (d : DataBuffer Packet)
      (q₀ q₁ r₀ r₁ : List Packet)
      → rounds_of (t ∷ turns) ≡ rounds_of turns
      → p₁.processor ≡ with_ring p.processor d
      → turn num strtof sine junk t p ≡ ok (p₁, out)
      → ((log : List (ℕ × Packet)) (rest made : List Packet)
          → taken 0 log ++ rest ≡ r₀ ++ made
          → taken 0 (out.taken ++ log) ++ rest ≡ q₀ ++ made)
      → ((log : List (ℕ × Packet)) (rest made : List Packet)
          → taken 1 log ++ rest ≡ r₁ ++ made
          → taken 1 (out.taken ++ log) ++ rest ≡ q₁ ++ made)
      → Delivers turns p₁ r₀ r₁
      → Delivers (t ∷ turns) p q₀ q₁
  unfolding run_turns
  turn-Delivers turns t p p₁ out d q₀ q₁ r₀ r₁ quiet ringed e first second more =
      let back =
        run_packets-back num strtof sine junk (rounds_of turns) p.processor more.alone d more.made (
          ap (run_packets num strtof sine junk (rounds_of turns)) (sym ringed) ∙ more.runs_alone) in
      record {
        final = more.final;
        out = joined_effects out more.out;
        alone = with_ring more.alone p.processor.tx_buffer;
        made = more.made;
        left₀ = more.left₀;
        left₁ = more.left₁;
        runs = rw (e, more.runs) refl;
        runs_alone = ap (λ rs. run_packets num strtof sine junk rs p.processor) quiet ∙ back;
        same = more.same;
        shows = more.shows;
        order₀ = first more.out.taken more.left₀ more.made more.order₀;
        order₁ = second more.out.taken more.left₁ more.made more.order₁;
      }

  pub no_turn-Delivers :
      (p : Pipeline F) (q₀ q₁ : List Packet)
      → Represents p.processor.tx_buffer (q₀ ∷ q₁ ∷ [])
      → Delivers [] p q₀ q₁
  unfolding run_turns run_packets
  no_turn-Delivers p q₀ q₁ shows = record {
    final = p;
    out = no_effects;
    alone = p.processor;
    made = [];
    left₀ = q₀;
    left₁ = q₁;
    runs = refl;
    runs_alone = refl;
    same = refl;
    shows = shows;
    order₀ = sym (append-nil q₀);
    order₁ = sym (append-nil q₁);
  }

  -- A turn of the transmitter, on an empty queue and on one with a packet
  pub transmit_turn-Delivers :
      (turns : List Turn) (k a b : ℕ) (p : Pipeline F) (q₀ q₁ : List Packet)
      → IsFed k a b p.processor q₀ q₁
      → ((p₁ : Pipeline F) (r₀ : List Packet)
          → IsFed k (a - 1) b p₁.processor r₀ q₁
          → Delivers turns p₁ r₀ q₁)
      → Delivers (transmit_turn ∷ turns) p q₀ q₁
  unfolding turn
  transmit_turn-Delivers turns k a b p [] q₁ fed more =
      let waits = turn_waits p.processor.tx_buffer ([] ∷ q₁ ∷ []) 0 fed.shows refl in
      turn-Delivers turns transmit_turn p p no_effects p.processor.tx_buffer [] q₁ [] q₁ refl refl
        (rw waits refl) (λ log rest made o. o) (λ log rest made o. o)
        (more p [] (
          with_ring-IsFed k (a - 1) b p.processor p.processor.tx_buffer [] q₁ fed.ready fed.shows
            fed.size (omega arith) fed.short₁ fed.valid))
  transmit_turn-Delivers turns k a b p (x ∷ q₀) q₁ fed more =
      let (d, e, shows, size) =
        turn_passes p.processor.tx_buffer ((x ∷ q₀) ∷ q₁ ∷ []) 0 x q₀ fed.shows refl in
      turn-Delivers turns transmit_turn p (record p { processor = with_ring p.processor d })
        (record { taken = (0, x) ∷ []; calls = [] }) d (x ∷ q₀) q₁ q₀ q₁ refl refl (rw e refl)
        (λ log rest made o. ap (λ ys. x ∷ ys) o) (λ log rest made o. o)
        (more (record p { processor = with_ring p.processor d }) q₀
          (with_ring-IsFed k (a - 1) b p.processor d q₀ q₁ fed.ready shows (size ∙ fed.size)
            (omega (arith, fed.short₀)) fed.short₁ fed.valid))

  -- A turn of the file writer, the same way
  pub file_turn-Delivers :
      (turns : List Turn) (opened : ℤ) (k a b : ℕ) (p : Pipeline F) (q₀ q₁ : List Packet)
      → IsFed k a b p.processor q₀ q₁
      → ((p₁ : Pipeline F) (r₁ : List Packet)
          → IsFed k a (b - 1) p₁.processor q₀ r₁
          → Delivers turns p₁ q₀ r₁)
      → Delivers (file_turn opened ∷ turns) p q₀ q₁
  unfolding turn
  file_turn-Delivers turns opened k a b p q₀ [] fed more =
      let waits = turn_waits p.processor.tx_buffer (q₀ ∷ [] ∷ []) 1 fed.shows refl in
      turn-Delivers turns (file_turn opened) p p no_effects p.processor.tx_buffer q₀ [] q₀ [] refl
        refl (rw waits refl) (λ log rest made o. o) (λ log rest made o. o)
        (more p [] (
          with_ring-IsFed k a (b - 1) p.processor p.processor.tx_buffer q₀ [] fed.ready fed.shows
            fed.size fed.short₀ (omega arith) fed.valid))
  file_turn-Delivers turns opened k a b p q₀ (x ∷ q₁) fed more =
      let (d, e, shows, size) =
        turn_passes p.processor.tx_buffer (q₀ ∷ (x ∷ q₁) ∷ []) 1 x q₁ fed.shows refl in
      let (written, e') = write_file_total opened p.processor.config p.data_file x fed.valid.0 in
      let p₁ : Pipeline F = record { processor = with_ring p.processor d; data_file = written.0 } in
      turn-Delivers turns (file_turn opened) p p₁
        (record { taken = (1, x) ∷ []; calls = written.1 }) d q₀ (x ∷ q₁) q₀ q₁ refl refl
        (rw (e, e') refl) (λ log rest made o. o) (λ log rest made o. ap (λ ys. x ∷ ys) o)
        (more p₁ q₁ (
          with_ring-IsFed k a (b - 1) p.processor d q₀ q₁ fed.ready shows (size ∙ fed.size)
            fed.short₀ (omega (arith, fed.short₁)) fed.valid.1))
