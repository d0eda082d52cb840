-- ===== src/Processor/Packets.antt =====
-- What a frame without test data puts into the ring.
use smurf_processor.Prelude.{
  eq_of_test, ne_of_test, ℕ, ◌≡◌, ◌≢◌, refl, sym, ◌∙◌, ap, ◌⊎◌, ◌==◌, Bool-cases, inl, inr, List,
  ok, arith, length,
}
use smurf_processor.Prelude.Int.{ℤ, unsigned}
use smurf_processor.Prelude.Bytes.{write, le_bytes, le_bytes-IsBytes, length-le_bytes}
use smurf_processor.Packet.{Packet}
use smurf_processor.Packet.Arrays.{IsMadeFrom, from_arrays_lem}
use smurf_processor.Header as H
use smurf_processor.Header.{Header, average_control}
use smurf_processor.DataBuffer.{write_packet}
use smurf_processor.DataBuffer.Room.{write_packet-room}
use smurf_processor.Timing.{ValidCheck}
use smurf_processor.Filter.{Arith, end_run}
use smurf_processor.Filter.Block.{end_run-IsRing, end_run-records}
use smurf_processor.Processor.{
  Round, Processor, buffer, with_buffer, averaged, stamped, sent, debugged, emit,
}
use smurf_processor.Processor.Reading.{put_field-Keeps, set_num_channels-Keeps, run-Succeeds}
use smurf_processor.Processor.Ready.{
  IsRoom, IsReady, buffer-IsRoom, with_buffer-IsReady, buffer-with_buffer, new_filter-IsReady,
}
use smurf_processor.Processor.Steps.{buffer-IsReadable}
use smurf_processor.Processor.Output.{end_run-samples}
use smurf_processor.Processor.Stamp.{stamp}

module _ {F : Type 0} (num : Arith F) (strtof : List ℕ → F) (sine : ℕ → ℕ → ℤ) (junk : ℕ) where
  -- The ring behind `sent`, from the buffer `h`
  abbrev pub Puts : (s s' : Processor F) (h : List ℕ) (samples : List ℤ) → Type 0
  Puts s s' h samples =
      ((unsigned 32 s'.config.data_frames ≡ 0) × (s'.tx_buffer ≡ s.tx_buffer))
      ⊎ ((unsigned 32 s'.config.data_frames ≢ 0)
          × (p : Packet) × (write_packet s.tx_buffer p ≡ ok s'.tx_buffer)
          × IsMadeFrom p h samples)

  sent-Puts :
      (k : ℕ) (s : Processor F) (samples : List ℤ)
      → IsReady k s
      → length samples ≡ 528
      → (s' : Processor F) × (sent num strtof sine junk s samples ≡ ok s')
        × (s'.valid_check ≡ s.valid_check)
        × Puts s s' (buffer s) samples
  unfolding sent
  sent-Puts k s samples ready long =
      let room = buffer-IsRoom k s ready in
      let (p, e, made, headers, payload) =
        (from_arrays_lem (buffer s) samples room.0).0 (omega (arith, room.1))
          (omega (arith, long)) in
      let (d, put, inside) = write_packet-room s.tx_buffer p ready.ring in
      elim (Bool-cases (unsigned 32 s.config.data_frames == 0)) [
        | inl off ↦
            (s, rw off refl, refl, inl (eq_of_test (unsigned 32 s.config.data_frames) 0 off, refl))
        | inr on ↦ (
          record s { tx_buffer = d },
          rw (on, e, put) refl,
          refl,
          inr (ne_of_test (unsigned 32 s.config.data_frames) 0 on, p, put, made),
        )
      ]

  averaged_kept :
      (s : Processor F) (samples : List ℤ)
      → H.get_test_mode junk (buffer s) ≡ ok 0
      → averaged num strtof sine junk s samples
        ≡ ok (record s { filter = end_run num s.filter }, samples)
  unfolding averaged
  averaged_kept s samples mode = rw mode refl

  stamped_value :
      (k : ℕ) (r : Round) (s : Processor F)
      → IsReady k s
      → (ns : ℕ) × (v : ValidCheck) × (stamped num strtof sine junk r s
          ≡ ok (
              with_buffer
                (record s { last_epicsns = ns; valid_check = v })
                (stamp (buffer s) v.unix_time.current)))
        × IsRoom (stamp (buffer s) v.unix_time.current)
  unfolding stamped
  stamped_value k r s ready =
      let room = buffer-IsRoom k s ready in
      let fields = buffer-IsReadable junk k s ready in
      let (v, ran) = run-Succeeds junk (buffer s) r.unix s.valid_check fields in
      let t = v.0.unix_time.current in
      let (e, keeps) =
        put_field-Keeps (buffer s) 48 8 (le_bytes 8 t) room.0 (le_bytes-IsBytes 8 t)
          (length-le_bytes 8 t) (omega (arith, room.1)) in
      let (e', keeps') =
        set_num_channels-Keeps (write (buffer s) 48 (le_bytes 8 t)) 528 keeps.bytes
          (omega (arith, keeps.size, room.1)) in
      (
        fields.nanoseconds.0,
        v.0,
        rw (fields.nanoseconds.1, ran, e, e') refl,
        (keeps'.bytes, keeps'.size ∙ keeps.size ∙ room.1),
      )

  pub emit-Puts :
      (k : ℕ) (r : Round) (s : Processor F) (samples : List ℤ)
      → IsReady k s
      → length samples ≡ 528
      → H.get_test_mode junk (buffer s) ≡ ok 0
      → (s' : Processor F) × (emit num strtof sine junk r s samples ≡ ok s')
        × Puts s s' (stamp (buffer s) s'.valid_check.unix_time.current) samples
  unfolding emit
  emit-Puts k r s samples ready long mode =
      let ended = record s { filter = end_run num s.filter } in
      let ready₁ =
        new_filter-IsReady k s (end_run num s.filter)
          (end_run-samples num s.filter ∙ ready.channels)
          (end_run-IsRing num s.filter ready.cells.0, end_run-records num s.filter ∙ ready.cells.1)
          ready in
      let shown = debugged num strtof sine junk ended in
      let (ns, v, e, room) = stamped_value k r shown ready₁ in
      let h = stamp (buffer s) v.unix_time.current in
      let marked = record shown { last_epicsns = ns; valid_check = v } in
      let ready₂ = with_buffer-IsReady k marked h room ready₁ in
      let (s', e', same, put) = sent-Puts k (with_buffer marked h) samples ready₂ long in
      let header =
        buffer-with_buffer marked h ∙ ap (λ c. stamp (buffer s) c.unix_time.current) (sym same) in
      (
        s',
        rw (averaged_kept s samples mode, e) e',
        elim put [
          | inl none ↦ inl none
          | inr (some, p, wrote, made) ↦ inr (some, p, wrote, rw (sym header) made)
        ],
      )
