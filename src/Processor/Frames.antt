-- ===== src/Processor/Frames.antt =====
-- One frame without test data on its way through the processor, from the raw samples to the ring.
use smurf_processor.Prelude.{
  eq_of_test, ne_of_test, ℕ, if◌then◌else◌, ◌+◌, ◌<◌, ◌≡◌, ◌≢◌, refl, sym, ◌∙◌, ap, ◌⊎◌, ◌==◌,
  Bool-cases, inl, inr, List, ok, ◌>>=◌, arith, length,
}
use smurf_processor.Prelude.Int.{ℤ, unsigned}
use smurf_processor.Prelude.Bytes.{write}
use smurf_processor.Packet.{Packet, smurf_samples}
use smurf_processor.Header as H
use smurf_processor.Header.{Header, average_control}
use smurf_processor.Header.Averaging.{IsFrame, runs}
use smurf_processor.DataBuffer.{write_packet}
use smurf_processor.Unwrap.{smurf_raw_samples, unwrap_samples}
use smurf_processor.Unwrap.Bounds.{unwrap_samples-IsWithin}
use smurf_processor.Filter.{Arith, Filter, filter}
use smurf_processor.Filter.Total.{filter_total}
use smurf_processor.Config.Usable.{IsFile}
use smurf_processor.Frame.{samples_from}
use smurf_processor.Frame.Laws.{length-samples_from, samples_from-IsSigned}
use smurf_processor.Processor.{
  Round, Processor, buffer, buffer_last, with_buffer, unwrapped, filtered, cleared, configured,
  noted, emit, process,
}
use smurf_processor.Processor.Reading.{put_field-Keeps}
use smurf_processor.Processor.Ready.{
  IsRoom, IsReady, buffer-IsRoom, buffer-IsHeld, with_buffer-IsReady, buffer-with_buffer,
  buffer_last-with_buffer, new_filter-IsReady, renewed,
}
use smurf_processor.Processor.Steps.{cleared-IsReady, configured-IsReady, noted-IsReady}
use smurf_processor.Processor.Stamp.{Carries, stamp-Carries}
use smurf_processor.Processor.Packets.{emit-Puts}
use smurf_processor.Processor.Biased.{
  get_test_mode-write, average_control-write, samples_from-write, raw_data_plain,
}

average_value :
    (junk : ℕ) (h : List ℕ) (time : ℕ × ℕ) (s : Header) (num : ℤ)
    → IsFrame h
    → (out : Header × ℕ) × (average_control junk h time s num ≡ ok (out.0, out.1))
average_value junk h time s num frame = (_, runs junk h frame time s num)

module _ {F : Type 0} (num : Arith F) (strtof : List ℕ → F) (sine : ℕ → ℕ → ℤ) (junk : ℕ) where
  unwrapped_value :
      (s : Processor F) (d p : List ℤ) (out : List ℤ × List ℤ)
      → samples_from smurf_raw_samples 0 (buffer s) ≡ d
      → samples_from smurf_raw_samples 0 (buffer_last s) ≡ p
      → unwrap_samples smurf_samples d p s.mask s.wrap_counter s.input_data ≡ ok out
      → unwrapped num strtof sine junk s
        ≡ ok (record s { wrap_counter = out.0; input_data = out.1 })
  unfolding unwrapped
  unwrapped_value s d p out ed ep e = rw (ed, ep, e) refl

  filtered_value :
      (r : Round) (s : Processor F) (f : Filter F) (samples : List ℤ) (h : Header) (cnt : ℕ)
      → (let c = s.config in
          filter num c.filter_a c.filter_b s.filter s.input_data c.filter_order c.filter_g
          ≡ ok (f, samples))
      → average_control junk (buffer s) r.time s.header s.config.num_averages ≡ ok (h, cnt)
      → filtered num strtof sine junk r s ≡ ok (record s { filter = f; header = h }, samples, cnt)
  unfolding filtered
  filtered_value r s f samples h cnt ef ea = rw (ef, ea) refl

  -- What the ring is behind a frame that completes an average of `cnt` frames, or none
  abbrev pub Output : (s s' : Processor F) (cnt : ℕ) (samples : List ℤ) → Type 0
  Output s s' cnt samples =
      (((cnt ≡ 0) ⊎ (unsigned 32 s'.config.data_frames ≡ 0)) × (s'.tx_buffer ≡ s.tx_buffer))
      ⊎ ((cnt ≢ 0)
          × (unsigned 32 s'.config.data_frames ≢ 0)
          × (p : Packet) × (write_packet s.tx_buffer p ≡ ok s'.tx_buffer)
          × Carries p (buffer s) s.tes_bias s'.valid_check.unix_time.current samples)

  -- The part behind the filter, from a state with the same memory
  finished :
      (k : ℕ) (r : Round) (s s₃ : Processor F) (samples : List ℤ) (cnt : ℕ)
      → IsRoom (buffer s)
      → length s.tes_bias ≡ 40
      → IsFile r.config_file
      → IsReady k s₃
      → length samples ≡ 528
      → buffer s₃ ≡ write (buffer s) 8 s.tes_bias
      → H.get_test_mode junk (buffer s₃) ≡ ok 0
      → s₃.tx_buffer ≡ s.tx_buffer
      → (s' : Processor F) × ((do
        s₄ ← cleared num strtof sine junk s₃
        s₅ ← configured num strtof sine junk r s₄
        if cnt == 0 then noted num strtof sine junk s₅ else emit num strtof sine junk r s₅ samples)
          ≡ ok s')
        × Output s s' cnt samples
  finished k r s s₃ samples cnt room full file ready₃ long header mode ring =
      let (s₄, e₄, next₄) = cleared-IsReady num strtof sine junk k s₃ ready₃ in
      let (s₅, e₅, next₅) = configured-IsReady num strtof sine junk k r s₄ file next₄.0 in
      let same = buffer-IsHeld s₄ s₅ next₅.1 ∙ buffer-IsHeld s₃ s₄ next₄.1 in
      let ring₅ = next₅.1.3 ∙ next₄.1.3 ∙ ring in
      elim (Bool-cases (cnt == 0)) [
        | inl none ↦
            let (s', e, next') = noted-IsReady num strtof sine junk k s₅ next₅.0 in
            (s', rw (e₄, e₅, none) e, inl (inl (eq_of_test cnt 0 none), next'.1.3 ∙ ring₅))
        | inr due ↦
            let (s', e, put) =
              emit-Puts num strtof sine junk k r s₅ samples next₅.0 long
                (ap (H.get_test_mode junk) same ∙ mode) in
            (
              s',
              rw (e₄, e₅, due) e,
              elim put [
                | inl (none, kept) ↦ inl (inr none, kept ∙ ring₅)
                | inr (some, p, wrote, made) ↦ inr (
                  ne_of_test cnt 0 due,
                  some,
                  p,
                  ap (λ d. write_packet d p) (sym ring₅) ∙ wrote,
                  stamp-Carries (buffer s) s.tes_bias s'.valid_check.unix_time.current
                      (omega (arith, room.1)) full p samples (rw (sym (same ∙ header)) made) long,
                )
              ],
            )
      ]

  -- A frame that is accepted in a ready state with fewer than 32767 wraps counted, with no test mode in its header
  -- and a settings file, if one is read, that is in order, is processed: the samples unwrapped from its buffer
  -- and the last one go through the filter, and what comes out is the payload of the packet that is
  -- written into the ring if the frame completes an average and packets are asked for. The packet's
  -- header is the frame's, with the processor's TES bias values, the checked time and 528
  -- channels. Otherwise the ring stays as it is.
  pub process-Output :
      (k : ℕ) (r : Round) (s : Processor F)
      → IsReady k s
      → k < 32767
      → IsFile r.config_file
      → H.get_test_mode junk (buffer s) ≡ ok 0
      → (wraps : List ℤ) × (inputs : List ℤ) × (f : Filter F) × (samples : List ℤ) × (h : Header)
        × (cnt : ℕ) × (s' : Processor F) × (let d = samples_from smurf_raw_samples 0 (buffer s) in
            let p = samples_from smurf_raw_samples 0 (buffer_last s) in
            unwrap_samples smurf_samples d p s.mask s.wrap_counter s.input_data
            ≡ ok (wraps, inputs))
        × (let c = s.config in
            filter num c.filter_a c.filter_b s.filter inputs c.filter_order c.filter_g
            ≡ ok (f, samples))
        × (average_control junk (buffer s) r.time s.header s.config.num_averages ≡ ok (h, cnt))
        × (process num strtof sine junk r s ≡ ok s')
        × Output s s' cnt samples
  unfolding process
  process-Output k r s ready few file mode =
      let c = s.config in
      let room = buffer-IsRoom k s ready in
      let frame : IsFrame (buffer s) = (room.0, omega (arith, room.1)) in
      let b = write (buffer s) 8 s.tes_bias in
      let (e, keeps) =
        put_field-Keeps (buffer s) 8 40 s.tes_bias room.0 ready.bias ready.bias_size
          (omega (arith, room.1)) in
      let s₁ = with_buffer s b in
      let here = buffer-with_buffer s b in
      let ready₁ = with_buffer-IsReady k s b (keeps.bytes, keeps.size ∙ room.1) ready in
      let d = samples_from smurf_raw_samples 0 (buffer s) in
      let p = samples_from smurf_raw_samples 0 (buffer_last s) in
      let (wraps, inputs, eu, near, lw, li) =
        unwrap_samples-IsWithin 528 k d p s.mask s.wrap_counter s.input_data few
          (samples_from-IsSigned smurf_raw_samples 0 (buffer s))
          (length-samples_from smurf_raw_samples 0 (buffer s))
          (length-samples_from smurf_raw_samples 0 (buffer_last s)) ready.masked ready.near
          (omega (arith, ready.mask_size)) (omega (arith, ready.wraps_size))
          (omega (arith, ready.inputs_size)) in
      let e₂ =
        unwrapped_value s₁ d p (wraps, inputs)
          (ap (samples_from smurf_raw_samples 0) here
            ∙ samples_from-write junk (buffer s) s.tes_bias frame ready.bias ready.bias_size
                smurf_raw_samples 0)
          (ap (samples_from smurf_raw_samples 0) (buffer_last-with_buffer s b)) eu in
      let s₂ = record s₁ { wrap_counter = wraps; input_data = inputs } in
      let ready₂ =
        renewed k (k + 1) s₁ c s.mask wraps inputs ready.usable ready.masked near ready.mask_size
          (lw ∙ ready.wraps_size) (li ∙ ready.inputs_size) ready₁ in
      let (f, samples, ef, long, channels, records, cells) =
        filter_total num c.filter_a c.filter_b s.filter inputs c.filter_order c.filter_g
          ready.cells.0 (omega (arith, ready.channels, li, ready.inputs_size))
          (omega (arith, ready.usable.order, ready.usable.a))
          (omega (arith, ready.usable.order, ready.usable.b)) in
      let (control, ea) = average_value junk (buffer s) r.time s.header c.num_averages frame in
      let e₃ = filtered_value r s₂ f samples control.0 control.1 ef (
        ap (λ x. average_control junk x r.time s.header c.num_averages) here
        ∙ average_control-write junk (buffer s) s.tes_bias frame ready.bias ready.bias_size r.time
            s.header c.num_averages
        ∙ ea) in
      let s₃ = record s₂ { filter = f; header = control.0 } in
      let (s', e', output) =
        finished (k + 1) r s s₃ samples control.1 room ready.bias_size file
          (new_filter-IsReady (k + 1) s₂ f (channels ∙ ready.channels)
            (cells, records ∙ ready.cells.1) ready₂)
          (long ∙ ready.channels) here
          (ap (H.get_test_mode junk) here
            ∙ get_test_mode-write junk (buffer s) s.tes_bias frame ready.bias ready.bias_size
            ∙ mode)
          refl in
      (
        wraps,
        inputs,
        f,
        samples,
        control.0,
        control.1,
        s',
        eu,
        ef,
        ea,
        rw (raw_data_plain num strtof sine junk k r s ready mode, e₂, e₃) e',
        output,
      )
