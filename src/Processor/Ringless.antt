-- ===== src/Processor/Ringless.antt =====
-- No part of a step reads or changes the ring of packets, up to the one that puts a packet into it.
use smurf_processor.Prelude.{
  ℕ, ◌==◌, ◌%◌, ◌≡◌, refl, sym, ◌∙◌, ap, Bool-cases, inl, inr, Option, List, [], ◌∷◌, Result, ok,
  ◌>>=◌, ok-injective,
}
use smurf_processor.Prelude.Int.{ℤ}
use smurf_processor.Packet.{Packet}
use smurf_processor.Header as H
use smurf_processor.Filter.{Arith}
use smurf_processor.DataBuffer.{DataBuffer}
use smurf_processor.FrameCount.{count_number}
use smurf_processor.Prelude.Bytes.{le_bytes}
use smurf_processor.Packet.{smurf_samples}
use smurf_processor.Header.{
  put_field, set_num_channels, average_control, get_syncword, get_1hz_counter,
  get_epics_nanoseconds, get_clear_bit, get_test_parameter,
}
use smurf_processor.Unwrap.{smurf_raw_samples, unwrap_samples}
use smurf_processor.Filter.{filter}
use smurf_processor.Config.{read_config_file}
use smurf_processor.TestData.{gen_test_smurf_data}
use smurf_processor.Timing.{run}
use smurf_processor.Frame.{frame_to_buffer, samples_from, store_samples}
use smurf_processor.Processor.{
  buffer_last, Round, Processor, buffer, swapped, receive, raw_data, unwrapped, filtered, cleared,
  configured, noted, averaged, stamped, debugged,
}
use smurf_processor.Processor.Alone.{
  with_ring, bind_under, bind_along, packet_of, emit_packet, process_packet, step_packet,
  run_packets,
}

-- A result with another ring
abbrev pub on_ring {ℓ} :
    {F : Type 0} {B : Type ℓ} → DataBuffer Packet → Processor F × B → Result (Processor F × B)
on_ring d out = ok (with_ring out.0 d, out.1)

abbrev pub sampled :
    {F : Type 0} → DataBuffer Packet → Processor F × List ℤ × ℕ → Result (Processor F × List ℤ × ℕ)
sampled d out = ok (with_ring out.0 d, out.1, out.2)

abbrev pub alone : {F : Type 0} → DataBuffer Packet → Processor F → Result (Processor F)
alone d s = ok (with_ring s d)

module _ {F : Type 0} (d : DataBuffer Packet) where
  receive-with_ring :
      (r : Round) (s : Processor F) → receive r (with_ring s d) ≡ (receive r s >>= alone d)
  unfolding receive
  receive-with_ring r s =
      bind_under (frame_to_buffer r.frame (buffer (swapped s))) _ _ (alone d) λ buf. refl

  module _ (num : Arith F) (strtof : List ℕ → F) (sine : ℕ → ℕ → ℤ) (junk : ℕ) where
    raw_data-with_ring :
        (r : Round) (s : Processor F)
        → raw_data num strtof sine junk r (with_ring s d)
          ≡ (raw_data num strtof sine junk r s >>= alone d)
    unfolding raw_data
    raw_data-with_ring r s =
        bind_under (put_field (buffer s) 8 40 s.tes_bias) _ _ (alone d) λ biased.
          bind_under (H.get_test_mode junk biased) _ _ (alone d) λ mode.
            elim (Bool-cases (mode == 0)) [
              | inl e ↦ rw e refl
              | inr e ↦ rw e (
                  bind_under (get_syncword junk biased) _ _ (alone d) λ sync.
                    bind_under (get_test_parameter junk biased) _ _ (alone d) λ param.
                      bind_under
                        (store_samples biased
                          (gen_test_smurf_data r.random sine
                            (samples_from smurf_raw_samples 0 biased) mode sync param
                            s.test_data).1)
                        _ _ (alone d) λ buf. refl)
            ]

    unwrapped-with_ring :
        (s : Processor F)
        → unwrapped num strtof sine junk (with_ring s d)
          ≡ (unwrapped num strtof sine junk s >>= alone d)
    unfolding unwrapped
    unwrapped-with_ring s =
        bind_under
          (unwrap_samples smurf_samples (samples_from smurf_raw_samples 0 (buffer s))
            (samples_from smurf_raw_samples 0 (buffer_last s)) s.mask s.wrap_counter s.input_data)
          _ _ (alone d) λ out. refl

    filtered-with_ring :
        (r : Round) (s : Processor F)
        → filtered num strtof sine junk r (with_ring s d)
          ≡ (filtered num strtof sine junk r s >>= sampled d)
    unfolding filtered
    filtered-with_ring r s =
        let c = s.config in
        bind_under
          (filter num c.filter_a c.filter_b s.filter s.input_data c.filter_order c.filter_g) _ _
          (sampled d)
          λ f.
            bind_under (average_control junk (buffer s) r.time s.header c.num_averages) _ _
              (sampled d) λ h. refl

    cleared-with_ring :
        (s : Processor F)
        → cleared num strtof sine junk (with_ring s d)
          ≡ (cleared num strtof sine junk s >>= alone d)
    unfolding cleared
    cleared-with_ring s =
        bind_under (get_clear_bit junk (buffer s)) _ _ (alone d)
          λ bit. elim (Bool-cases (bit == 0)) [ inl e ↦ rw e refl | inr e ↦ rw e refl ]

    configured-with_ring :
        (r : Round) (s : Processor F)
        → configured num strtof sine junk r (with_ring s d)
          ≡ (configured num strtof sine junk r s >>= alone d)
    unfolding configured
    configured-with_ring r s = bind_under (H.read_config_file junk (buffer s)) _ _ (alone d) λ bit.
        elim (Bool-cases (bit == 0)) [
          | inl e ↦ rw e refl
          | inr e ↦ elim (Bool-cases (s.fast_internal_counter % 5000 == 0)) [
            | inl due ↦
                rw (e, due)
                  (bind_under (read_config_file strtof r.config_file s.config) _ _ (alone d)
                    λ c. refl)
            | inr later ↦ rw (e, later) refl
          ]
        ]

    noted-with_ring :
        (s : Processor F)
        → noted num strtof sine junk (with_ring s d) ≡ (noted num strtof sine junk s >>= alone d)
    unfolding noted
    noted-with_ring s =
        bind_under (H.get_frame_counter junk (buffer s)) _ _ (alone d)
          λ frame. bind_under (get_1hz_counter junk (buffer s)) _ _ (alone d) λ hz. refl

    averaged-with_ring :
        (s : Processor F) (samples : List ℤ)
        → averaged num strtof sine junk (with_ring s d) samples
          ≡ (averaged num strtof sine junk s samples >>= on_ring d)
    unfolding averaged
    averaged-with_ring s samples =
        bind_under (H.get_test_mode junk (buffer s)) _ _ (on_ring d) λ mode.
          elim (Bool-cases (mode == 0)) [
            | inl e ↦ rw e refl
            | inr e ↦ rw e (
                bind_under (get_syncword junk (buffer s)) _ _ (on_ring d) λ sync.
                  bind_under (get_test_parameter junk (buffer s)) _ _ (on_ring d) λ param. refl)
          ]

    stamped-with_ring :
        (r : Round) (s : Processor F)
        → stamped num strtof sine junk r (with_ring s d)
          ≡ (stamped num strtof sine junk r s >>= alone d)
    unfolding stamped
    stamped-with_ring r s = bind_under (get_epics_nanoseconds junk (buffer s)) _ _ (alone d) λ ns.
        bind_under (run junk (buffer s) r.unix s.valid_check) _ _ (alone d) λ v.
          bind_under (put_field (buffer s) 48 8 (le_bytes 8 v.0.unix_time.current)) _ _ (alone d)
            λ timed.
              bind_under (set_num_channels timed smurf_samples) _ _ (alone d) λ complete. refl

    emit_packet-with_ring :
        (r : Round) (s : Processor F) (samples : List ℤ)
        → emit_packet num strtof sine junk r (with_ring s d) samples
          ≡ (emit_packet num strtof sine junk r s samples >>= on_ring d)
    unfolding emit_packet packet_of
    emit_packet-with_ring r s samples =
        bind_along (averaged num strtof sine junk s samples) _ (λ out. (with_ring out.0 d, out.1)) _
          _ (on_ring d) (averaged-with_ring s samples)
          λ out.
            bind_along (stamped num strtof sine junk r (debugged num strtof sine junk out.0)) _
              (λ s'. with_ring s' d) _ _ (on_ring d)
              (stamped-with_ring r (debugged num strtof sine junk out.0))
              λ s₂. bind_under (packet_of num strtof sine junk s₂ out.1) _ _ (on_ring d) λ o. refl

    process_packet-with_ring :
        (r : Round) (s : Processor F)
        → process_packet num strtof sine junk r (with_ring s d)
          ≡ (process_packet num strtof sine junk r s >>= on_ring d)
    unfolding process_packet
    process_packet-with_ring r s =
        let w : Processor F → Processor F = λ s'. with_ring s' d in
        bind_along (raw_data num strtof sine junk r s) _ w _ _ (on_ring d) (raw_data-with_ring r s)
          λ s₁.
            bind_along (unwrapped num strtof sine junk s₁) _ w _ _ (on_ring d)
              (unwrapped-with_ring s₁)
              λ s₂.
                bind_along (filtered num strtof sine junk r s₂) _
                  (λ out. (with_ring out.0 d, out.1, out.2)) _ _ (on_ring d)
                  (filtered-with_ring r s₂)
                  λ out.
                    bind_along (cleared num strtof sine junk out.0) _ w _ _ (on_ring d)
                      (cleared-with_ring out.0)
                      λ s₄.
                        bind_along (configured num strtof sine junk r s₄) _ w _ _ (on_ring d)
                          (configured-with_ring r s₄)
                          λ s₅. elim (Bool-cases (out.2 == 0)) [
                            | inl e ↦ rw e (
                                bind_along (noted num strtof sine junk s₅) _ w _ _ (on_ring d)
                                  (noted-with_ring s₅) λ s'. refl)
                            | inr e ↦ rw e (emit_packet-with_ring r s₅ out.1)
                          ]

    pub step_packet-with_ring :
        (r : Round) (s : Processor F)
        → step_packet num strtof sine junk r (with_ring s d)
          ≡ (step_packet num strtof sine junk r s >>= on_ring d)
    unfolding step_packet
    step_packet-with_ring r s =
        bind_along (receive r s) _ (λ s'. with_ring s' d) _ _ (on_ring d) (receive-with_ring r s)
          λ s₁. bind_under (H.get_frame_counter junk (buffer s₁)) _ _ (on_ring d) λ number.
            let out = count_number s₁.count number in
            elim (Bool-cases out.1) [
              | inl e ↦ rw e (process_packet-with_ring r (record s₁ { count = out.0 }))
              | inr e ↦ rw e refl
            ]

    -- The packets that a run makes do not depend on the ring.
    pub run_packets-with_ring :
        (rounds : List Round) (s : Processor F)
        → run_packets num strtof sine junk rounds (with_ring s d)
          ≡ (run_packets num strtof sine junk rounds s >>= on_ring d)
    unfolding run_packets
    run_packets-with_ring [] s = refl
    run_packets-with_ring (r ∷ rounds) s =
        bind_along (step_packet num strtof sine junk r s) _ (λ out. (with_ring out.0 d, out.1)) _ _
          (on_ring d) (step_packet-with_ring r s)
          λ one.
            bind_along (run_packets num strtof sine junk rounds one.0) _
              (λ out. (with_ring out.0 d, out.1)) _ _ (on_ring d)
              (run_packets-with_ring rounds one.0) λ rest. refl

  -- What a step does apart from the ring leaves the ring as it was.
  pub step_packet-tx_buffer :
      (num : Arith F) (strtof : List ℕ → F) (sine : ℕ → ℕ → ℤ) (junk : ℕ) (r : Round)
      (s s' : Processor F) (out : Option Packet)
      → s.tx_buffer ≡ d
      → step_packet num strtof sine junk r s ≡ ok (s', out)
      → s'.tx_buffer ≡ d
  step_packet-tx_buffer num strtof sine junk r s s' out same e =
      let here : step_packet num strtof sine junk r (with_ring s d) ≡ ok (s', out) =
        ap (λ b. step_packet num strtof sine junk r (with_ring s b)) (sym same) ∙ e in
      let there : step_packet num strtof sine junk r (with_ring s d) ≡ ok (with_ring s' d, out) =
        step_packet-with_ring num strtof sine junk r s ∙ ap (λ m. m >>= on_ring d) e in
      ap (λ x. x.0.tx_buffer) (ok-injective (sym here ∙ there))
