-- ===== src/Processor/Runs.antt =====
-- Runs of the processor from its constructor, over frames that fit into a buffer.
use smurf_processor.Prelude.{
  ℕ, zero, ◌+◌, ◌≤◌, ◌<◌, ◌≡◌, refl, ◌==◌, Bool-cases, inl, inr, List, Option, none, ◌∙◌, arith,
  length, length-replicate, replicate, All, All-replicate,
}
use smurf_processor.Prelude.Int.{ℤ, pos}
use smurf_processor.Prelude.Bytes.{IsBytes, replicate-IsBytes}
use smurf_processor.FrameCount.{count_number}
use smurf_processor.Unwrap.Bounds.{IsWithin}
use smurf_processor.Filter.{Arith}
use smurf_processor.Filter.Block.{new_filter-IsRing}
use smurf_processor.Config.{default_config}
use smurf_processor.Packet.{Packet, new_packet}
use smurf_processor.DataBuffer.{new_buffer}
use smurf_processor.DataBuffer.Room.{new_buffer-room}
use smurf_processor.Config.Usable.{IsUsable, IsFile, read_config_file-IsUsable}
use smurf_processor.Frame.Laws.{joined}
use smurf_processor.Processor.{Round, Processor, new_processor}
use smurf_processor.Processor.Ready.{Gives, bind-Gives, read_then, IsReady, Next, wider-IsReady}
use smurf_processor.Processor.Steps.{
  buffer-IsReadable, receive-IsReady, raw_data-IsReady, unwrapped-IsReady, filtered-IsReady,
  cleared-IsReady, configured-IsReady, read_mask-All, noted-IsReady,
}
use smurf_processor.Processor.Output.{IsMade, emit_packet-IsReady}
use smurf_processor.Processor.Alone.{process_packet, step_packet}

-- A frame of bytes that fits into a buffer, and settings as they are read without a fault
pub record IsRound (r : Round) : Type 0 where
  pub bytes : All IsBytes r.frame.pieces
  pub room : length (joined r.frame.pieces) ≤ 0x8000
  pub file : IsFile r.config_file

module _ {F : Type 0} (num : Arith F) (strtof : List ℕ → F) (sine : ℕ → ℕ → ℤ) (junk : ℕ) where
  process_packet-IsReady :
      (k : ℕ) (r : Round) (s : Processor F)
      → IsRound r
      → k < 32767
      → IsReady k s
      → Gives
          (λ out. IsReady (k + 1) out.0 × IsMade out.1)
          (process_packet num strtof sine junk r s)
  unfolding process_packet
  process_packet-IsReady k r s good few ready =
      let Then = IsReady (k + 1) in
      let Done = λ (out : Processor F × Option Packet). IsReady (k + 1) out.0 × IsMade out.1 in
      bind-Gives (IsReady k) Done _ _ (raw_data-IsReady num strtof sine junk k r s ready) λ s₁ h₁.
        bind-Gives Then Done _ _ (unwrapped-IsReady num strtof sine junk k s₁ few h₁) λ s₂ h₂.
          bind-Gives (λ out. Then out.0 × (length out.1 ≡ 528)) Done _ _
            (filtered-IsReady num strtof sine junk (k + 1) r s₂ h₂)
            λ out h₃.
              bind-Gives (Next (k + 1) out.0) Done _ _
                (cleared-IsReady num strtof sine junk (k + 1) out.0 h₃.0)
                λ s₄ h₄.
                  bind-Gives (Next (k + 1) s₄) Done _ _
                    (configured-IsReady num strtof sine junk (k + 1) r s₄ good.file h₄.0)
                    λ s₅ h₅. elim (Bool-cases (out.2 == 0)) [
                      | inl e ↦ rw e (
                          bind-Gives (Next (k + 1) s₅) Done _ _
                            (noted-IsReady num strtof sine junk (k + 1) s₅ h₅.0)
                            λ s' h'. ((s', none), refl, (h'.0, tt)))
                      | inr e ↦
                          rw e
                            (emit_packet-IsReady num strtof sine junk (k + 1) r s₅ out.1 h₅.0 h₃.1)
                    ]

  pub step_packet-IsReady :
      (k : ℕ) (r : Round) (s : Processor F)
      → IsRound r
      → k < 32767
      → IsReady k s
      → Gives (λ out. IsReady (k + 1) out.0 × IsMade out.1) (step_packet num strtof sine junk r s)
  unfolding step_packet
  step_packet-IsReady k r s good few ready =
      let Done = λ (out : Processor F × Option Packet). IsReady (k + 1) out.0 × IsMade out.1 in
      bind-Gives (IsReady k) Done _ _ (receive-IsReady k r s good.bytes good.room ready) λ s₁ h₁.
        read_then Done _ _ (buffer-IsReadable junk k s₁ h₁).frame λ number.
          let out = count_number s₁.count number in
          elim (Bool-cases out.1) [
            | inl e ↦ rw e (process_packet-IsReady k r (record s₁ { count = out.0 }) good few h₁)
            | inr e ↦ rw e ((record s₁ { count = out.0 }, none), refl, (wider-IsReady k s₁ h₁, tt))
          ]

  -- A constructor that reads such a settings file
  pub new_processor-IsReady :
      (one : F) (words : ℕ) (config_file : Option (List (List ℕ))) (mask_file : Option (List ℕ))
      → IsFile config_file
      → Gives
          (λ s. IsReady 0 s × (s.tx_buffer ≡ new_buffer new_packet 10 2))
          (new_processor num strtof sine junk one words config_file mask_file)
  unfolding new_processor
  new_processor-IsReady one words config_file mask_file file =
      let start : IsUsable (default_config strtof num.null one) = record {
        order = omega arith;
        a = refl;
        b = refl;
      } in
      let mask =
        read_mask-All mask_file (replicate 528 0)
          (All-replicate (λ m. m < 4096) 528 0 (omega arith)) in
      bind-Gives IsUsable (λ s. IsReady 0 s × (s.tx_buffer ≡ new_buffer new_packet 10 2)) _ _
        (read_config_file-IsUsable strtof config_file (default_config strtof num.null one) file
          start)
        λ c usable. (
          _,
          refl,
          (
            record {
              first = (replicate-IsBytes 0x8000 0 (omega arith), length-replicate 0x8000 zero);
              second = (replicate-IsBytes 0x8000 0 (omega arith), length-replicate 0x8000 zero);
              masked = mask.0;
              mask_size = mask.1 ∙ length-replicate 528 zero;
              near = All-replicate (IsWithin 0) 528 (pos 0) (omega arith, omega arith);
              wraps_size = length-replicate 528 (pos 0);
              inputs_size = length-replicate 528 (pos 0);
              bias = replicate-IsBytes 40 0 (omega arith);
              bias_size = length-replicate 40 zero;
              channels = refl;
              cells = (new_filter-IsRing num 528 16 (omega arith), refl);
              usable = usable;
              ring = new_buffer-room new_packet 10 2 (omega arith);
            },
            refl,
          ),
        )
