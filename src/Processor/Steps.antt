-- ===== src/Processor/Steps.antt =====
-- Every part of a step gives a state that is ready again.
use smurf_processor.Prelude.{
  ℕ, Option, none, some, ◌+◌, ◌%◌, ◌^◌, ◌+◌, ◌≤◌, ◌<◌, ◌≡◌, refl, ◌∙◌, ◌==◌, Bool-cases, inl, inr,
  List, arith, length, length-replicate, replicate, All, All-replicate,
}
use smurf_processor.Prelude.Int.{ℤ, pos}
use smurf_processor.Prelude.Bytes.{IsBytes}
use smurf_processor.Header.{clear_average, put_field}
use smurf_processor.Header.Averaging.{runs}
use smurf_processor.Unwrap.{smurf_raw_samples, unwrap_samples}
use smurf_processor.Unwrap.Bounds.{IsWithin, unwrap_samples-IsWithin}
use smurf_processor.Filter.{Arith, clear_filter}
use smurf_processor.Filter.Total.{filter_total}
use smurf_processor.Filter.Block.{IsRing, clear_filter-IsRing}
use smurf_processor.TestData.{gen_test_smurf_data}
use smurf_processor.TestData.Lengths.{length-gen_test_smurf_data}
use smurf_processor.Frame.{frame_to_buffer, samples_from}
use smurf_processor.Frame.Laws.{
  joined, frame_to_buffer-IsBytes, length-samples_from, samples_from-IsSigned,
  store_samples-IsBytes,
}
use smurf_processor.Unwrap.{read_mask}
use smurf_processor.Unwrap.Channels.{mask_values-All}
use smurf_processor.Config.Usable.{IsUsable, IsFile, read_config_file-IsUsable}
use smurf_processor.Processor.{
  configured, Round, Processor, buffer, buffer_last, with_buffer, swapped, receive, raw_data,
  unwrapped, filtered, cleared, noted,
}
use smurf_processor.Processor.Reading.{IsReadable, IsFrame-IsReadable, put_field-Keeps}
use smurf_processor.Processor.Ready.{
  Gives, bind-Gives, read_then, IsRoom, IsReady, buffer-IsRoom, Next, held, with_buffer-IsReady,
  renewed, new_filter-IsReady,
}

IsRoom-IsReadable : (junk : ℕ) (b : List ℕ) → IsRoom b → IsReadable junk b
IsRoom-IsReadable junk b room = IsFrame-IsReadable junk b (room.0, omega (arith, room.1))

pub buffer-IsReadable :
    {F : Type 0} (junk k : ℕ) (s : Processor F) → IsReady k s → IsReadable junk (buffer s)
buffer-IsReadable junk k s ready = IsRoom-IsReadable junk (buffer s) (buffer-IsRoom k s ready)

pub read_mask-All :
    (file : Option (List ℕ)) (mask : List ℕ)
    → All (λ m. m < 4096) mask
    → All (λ m. m < 4096) (read_mask file mask) × (length (read_mask file mask) ≡ length mask)
read_mask-All none mask all = (all, refl)
read_mask-All (some values) mask all = mask_values-All mask values all

module _ {F : Type 0} where
  pub receive-IsReady :
      (k : ℕ) (r : Round) (s : Processor F)
      → All IsBytes r.frame.pieces
      → length (joined r.frame.pieces) ≤ 0x8000
      → IsReady k s
      → Gives (IsReady k) (receive r s)
  unfolding receive
  receive-IsReady k r s bytes short ready =
      let room = buffer-IsRoom k (swapped s) ready in
      let (b, e, size, bytes') =
        frame_to_buffer-IsBytes r.frame (buffer (swapped s)) bytes (omega (arith, room.1)) room.0 in
      bind-Gives IsRoom (IsReady k) (frame_to_buffer r.frame (buffer (swapped s))) _
        (b, e, (bytes', size ∙ room.1))
        λ b room. (_, refl, with_buffer-IsReady k (swapped s) b room ready)

module _ {F : Type 0} (num : Arith F) (strtof : List ℕ → F) (sine : ℕ → ℕ → ℤ) (junk : ℕ) where
  pub raw_data-IsReady :
      (k : ℕ) (r : Round) (s : Processor F)
      → IsReady k s
      → Gives (IsReady k) (raw_data num strtof sine junk r s)
  unfolding raw_data
  raw_data-IsReady k r s ready =
      let room = buffer-IsRoom k s ready in
      let (e, keeps) =
        put_field-Keeps (buffer s) 8 40 s.tes_bias room.0 ready.bias ready.bias_size
          (omega (arith, room.1)) in
      bind-Gives IsRoom (IsReady k) (put_field (buffer s) 8 40 s.tes_bias) _
        (_, e, (keeps.bytes, keeps.size ∙ room.1))
        λ b room'.
          let fields = IsRoom-IsReadable junk b room' in
          read_then (IsReady k) _ _ fields.mode λ mode. elim (Bool-cases (mode == 0)) [
            | inl zero ↦ rw zero (with_buffer s b, refl, with_buffer-IsReady k s b room' ready)
            | inr other ↦ rw other (
                read_then (IsReady k) _ _ fields.sync λ sync.
                  read_then (IsReady k) _ _ fields.parameter λ param.
                    let input = samples_from smurf_raw_samples 0 b in
                    let out = gen_test_smurf_data r.random sine input mode sync param s.test_data in
                    let long =
                      length-gen_test_smurf_data r.random sine input mode sync param s.test_data in
                    let (b', e', size, bytes', same) =
                      store_samples-IsBytes b out.1
                        (omega (arith, long, length-samples_from smurf_raw_samples 0 b, room'.1))
                        room'.0 in
                    bind-Gives IsRoom (IsReady k) _ _ (b', e', (bytes', size ∙ room'.1))
                      λ b'' room''. (
                        record (with_buffer s b'') { test_data = out.0 },
                        refl,
                        with_buffer-IsReady k s b'' room'' ready,
                      ))
          ]

  pub unwrapped-IsReady :
      (k : ℕ) (s : Processor F)
      → k < 32767
      → IsReady k s
      → Gives (IsReady (k + 1)) (unwrapped num strtof sine junk s)
  unfolding unwrapped
  unwrapped-IsReady k s few ready =
      let d = samples_from smurf_raw_samples 0 (buffer s) in
      let p = samples_from smurf_raw_samples 0 (buffer_last s) in
      let (wraps, inputs, e, near, lw, li) =
        unwrap_samples-IsWithin 528 k d p s.mask s.wrap_counter s.input_data few
          (samples_from-IsSigned smurf_raw_samples 0 (buffer s))
          (length-samples_from smurf_raw_samples 0 (buffer s))
          (length-samples_from smurf_raw_samples 0 (buffer_last s)) ready.masked ready.near
          (omega (arith, ready.mask_size)) (omega (arith, ready.wraps_size))
          (omega (arith, ready.inputs_size)) in
      bind-Gives (λ out. All (IsWithin (k + 1)) out.0 × (length out.0 ≡ 528) × (length out.1 ≡ 528))
        (IsReady (k + 1)) (unwrap_samples 528 d p s.mask s.wrap_counter s.input_data) _
        ((wraps, inputs), e, (near, lw ∙ ready.wraps_size, li ∙ ready.inputs_size))
        λ out good. (
          record s { wrap_counter = out.0; input_data = out.1 },
          refl,
          renewed k (k + 1) s s.config s.mask out.0 out.1 ready.usable ready.masked good.0
              ready.mask_size good.1 good.2 ready,
        )

  -- 528 samples leave the filter.
  pub filtered-IsReady :
      (k : ℕ) (r : Round) (s : Processor F)
      → IsReady k s
      → Gives (λ out. IsReady k out.0 × (length out.1 ≡ 528)) (filtered num strtof sine junk r s)
  unfolding filtered
  filtered-IsReady k r s ready =
      let c = s.config in
      let room = buffer-IsRoom k s ready in
      let (f, out, e, long, channels, same, cells) =
        filter_total num c.filter_a c.filter_b s.filter s.input_data c.filter_order c.filter_g
          ready.cells.0 (omega (arith, ready.channels, ready.inputs_size))
          (omega (arith, ready.usable.order, ready.usable.a))
          (omega (arith, ready.usable.order, ready.usable.b)) in
      let counted =
        runs junk (buffer s) (room.0, omega (arith, room.1)) r.time s.header c.num_averages in
      bind-Gives
        (λ out.
          (IsRing out.0 × (out.0.records ≡ 16)) × (out.0.samples ≡ 528) × (length out.1 ≡ 528))
        (λ out. IsReady k out.0 × (length out.1 ≡ 528)) _ _
        (
          (f, out),
          e,
          ((cells, same ∙ ready.cells.1), channels ∙ ready.channels, long ∙ ready.channels),
        )
        λ both sizes.
          read_then (λ out. IsReady k out.0 × (length out.1 ≡ 528)) _ _ (_, counted)
            λ h. (
              (record s { filter = both.0; header = h.0 }, both.1, h.1),
              refl,
              (new_filter-IsReady k s both.0 sizes.1 sizes.0 ready, sizes.2),
            )

  pub cleared-IsReady :
      (k : ℕ) (s : Processor F) → IsReady k s → Gives (Next k s) (cleared num strtof sine junk s)
  unfolding cleared
  cleared-IsReady k s ready =
      let wraps = replicate (length s.wrap_counter) (pos 0) in
      let empty =
        All-replicate (IsWithin k) (length s.wrap_counter) (pos 0) (omega arith, omega arith) in
      let fresh =
        renewed k k s s.config s.mask wraps s.input_data ready.usable ready.masked empty
          ready.mask_size (length-replicate (length s.wrap_counter) (pos 0) ∙ ready.wraps_size)
          ready.inputs_size ready in
      read_then (Next k s) _ _ (buffer-IsReadable junk k s ready).clear λ bit.
        elim (Bool-cases (bit == 0)) [
          | inl e ↦ rw e (s, refl, (ready, held s))
          | inr e ↦ rw e (
            record s {
              wrap_counter = wraps;
              header = clear_average s.header;
              filter = clear_filter num s.filter;
            },
            refl,
            (
              new_filter-IsReady k (record s { wrap_counter = wraps }) (clear_filter num s.filter)
                  ready.channels
                  (clear_filter-IsRing num s.filter ready.cells.0.some_records, ready.cells.1)
                  fresh,
              held s,
            ),
          )
        ]

  pub noted-IsReady :
      (k : ℕ) (s : Processor F) → IsReady k s → Gives (Next k s) (noted num strtof sine junk s)
  unfolding noted
  noted-IsReady k s ready =
      let fields = buffer-IsReadable junk k s ready in
      read_then (Next k s) _ _ fields.frame
        λ frame. read_then (Next k s) _ _ fields.hz λ hz. (_, refl, (ready, held s))

  pub configured-IsReady :
      (k : ℕ) (r : Round) (s : Processor F)
      → IsFile r.config_file
      → IsReady k s
      → Gives (Next k s) (configured num strtof sine junk r s)
  unfolding configured
  configured-IsReady k r s file ready =
      let (c, e, usable) =
        read_config_file-IsUsable strtof r.config_file s.config file ready.usable in
      let counted = record s { fast_internal_counter = (s.fast_internal_counter + 1) % 2 ^ 32 } in
      read_then (Next k s) _ _ (buffer-IsReadable junk k s ready).config λ bit.
        elim (Bool-cases (bit == 0)) [
          | inl off ↦ rw off (_, refl, (ready, held s))
          | inr on ↦ elim (Bool-cases (s.fast_internal_counter % 5000 == 0)) [
            | inl due ↦
                rw (on, due)
                  (bind-Gives IsUsable (Next k s) _ _ (c, e, usable)
                    λ c' usable'. (
                      record counted { config = c'; mask = read_mask r.mask_file s.mask },
                      refl,
                      (
                        (let masked = read_mask-All r.mask_file s.mask ready.masked in
                            renewed k k counted c' (read_mask r.mask_file s.mask) s.wrap_counter
                              s.input_data usable' masked.0 ready.near (masked.1 ∙ ready.mask_size)
                              ready.wraps_size ready.inputs_size ready),
                        held s,
                      ),
                    ))
            | inr later ↦ rw (on, later) (counted, refl, (ready, held s))
          ]
        ]
