-- ===== src/Processor/Output.antt =====
-- The parts of a step that put a packet into the ring give a state that is ready again.
use smurf_processor.Prelude.{
  ℕ, ◌<◌, ◌≡◌, refl, ◌∙◌, ◌==◌, Bool-cases, inl, inr, Option, none, some, List, arith, length,
}
use smurf_processor.Prelude.Int.{ℤ, negsuc, unsigned}
use smurf_processor.Prelude.Bytes.{le_bytes, le_bytes-IsBytes, length-le_bytes}
use smurf_processor.Packet.{Packet, IsValid}
use smurf_processor.Packet.Arrays.{from_arrays_lem}
use smurf_processor.DataBuffer.{DataBuffer}
use smurf_processor.DataBuffer.Room.{write_packet-room}
use smurf_processor.Filter.{Arith, Filter, end_run, same_order}
use smurf_processor.TestData.Lengths.{length-gen_test_mce_data}
use smurf_processor.Filter.Block.{end_run-IsRing, end_run-records}
use smurf_processor.Processor.{Round, Processor, buffer, averaged, stamped, debugged}
use smurf_processor.Processor.Alone.{hand_over, packet_of, emit_packet}
use smurf_processor.Processor.Reading.{put_field-Keeps, set_num_channels-Keeps, run-Succeeds}
use smurf_processor.Processor.Ready.{
  Gives, bind-Gives, read_then, IsRoom, IsReady, buffer-IsRoom, with_buffer-IsReady,
  new_filter-IsReady, put-IsReady,
}
use smurf_processor.Processor.Steps.{buffer-IsReadable}

-- The packet that is made, if packets are written at all, is valid.
abbrev pub IsMade : Option Packet → Type 0
IsMade none = Unit
IsMade (some p) = IsValid p

pub end_run-samples :
    {F : Type 0} (num : Arith F) (f : Filter F) → (end_run num f).samples ≡ f.samples
end_run-samples num f = elim (Bool-cases (same_order f.order_n (negsuc 0))) [
  | inl e ↦ rw e refl
  | inr e ↦ rw e refl
]

module _ {F : Type 0} (num : Arith F) (strtof : List ℕ → F) (sine : ℕ → ℕ → ℤ) (junk : ℕ) where
  pub averaged-IsReady :
      (k : ℕ) (s : Processor F) (samples : List ℤ)
      → IsReady k s
      → length samples ≡ 528
      → Gives
          (λ out. IsReady k out.0 × (length out.1 ≡ 528))
          (averaged num strtof sine junk s samples)
  unfolding averaged
  averaged-IsReady k s samples ready long =
      let Done = λ (out : Processor F × List ℤ). IsReady k out.0 × (length out.1 ≡ 528) in
      let fields = buffer-IsReadable junk k s ready in
      let ended =
        new_filter-IsReady k s (end_run num s.filter)
          (end_run-samples num s.filter ∙ ready.channels)
          (end_run-IsRing num s.filter ready.cells.0, end_run-records num s.filter ∙ ready.cells.1)
          ready in
      read_then Done _ _ fields.mode λ mode. elim (Bool-cases (mode == 0)) [
        | inl e ↦ rw e (_, refl, (ended, long))
        | inr e ↦ rw e (
            read_then Done _ _ fields.sync λ sync. read_then Done _ _ fields.parameter λ param. (
              _,
              refl,
              (ended, length-gen_test_mce_data samples mode sync param s.test_data ∙ long),
            ))
      ]

  pub stamped-IsReady :
      (k : ℕ) (r : Round) (s : Processor F)
      → IsReady k s
      → Gives (IsReady k) (stamped num strtof sine junk r s)
  unfolding stamped
  stamped-IsReady k r s ready =
      let room = buffer-IsRoom k s ready in
      let fields = buffer-IsReadable junk k s ready in
      read_then (IsReady k) _ _ fields.nanoseconds λ ns.
        read_then (IsReady k) _ _ (run-Succeeds junk (buffer s) r.unix s.valid_check fields) λ v.
          let time = le_bytes 8 v.0.unix_time.current in
          let (e, keeps) =
            put_field-Keeps (buffer s) 48 8 time room.0 (le_bytes-IsBytes 8 v.0.unix_time.current)
              (length-le_bytes 8 v.0.unix_time.current) (omega (arith, room.1)) in
          bind-Gives IsRoom (IsReady k) _ _ (_, e, (keeps.bytes, keeps.size ∙ room.1))
            λ timed room'.
              let (e', keeps') =
                set_num_channels-Keeps timed 528 room'.0 (omega (arith, room'.1)) in
              bind-Gives IsRoom (IsReady k) _ _ (_, e', (keeps'.bytes, keeps'.size ∙ room'.1))
                λ complete room''. (
                  _,
                  refl,
                  with_buffer-IsReady k (record s { last_epicsns = ns; valid_check = v.0 }) complete
                      room'' ready,
                )

  packet_of-IsMade :
      (k : ℕ) (s : Processor F) (samples : List ℤ)
      → IsReady k s
      → length samples ≡ 528
      → Gives IsMade (packet_of num strtof sine junk s samples)
  unfolding packet_of
  packet_of-IsMade k s samples ready long =
      let room = buffer-IsRoom k s ready in
      elim (Bool-cases (unsigned 32 s.config.data_frames == 0)) [
        | inl e ↦ rw e (none, refl, tt)
        | inr e ↦ rw e (
            let made =
              (from_arrays_lem (buffer s) samples room.0).0 (omega (arith, room.1))
                (omega (arith, long)) in
            bind-Gives IsValid IsMade _ _ (made.0, made.1, made.2.valid)
              λ p valid. (some p, refl, valid))
      ]

  pub hand_over-IsReady :
      (k : ℕ) (s : Processor F) (out : Option Packet)
      → IsReady k s
      → Gives (IsReady k) (hand_over (s, out))
  hand_over-IsReady k s none ready = (s, refl, ready)
  hand_over-IsReady k s (some p) ready =
      bind-Gives (λ (d : DataBuffer Packet). d.write_ptr < d.size) (IsReady k) _ _
        (write_packet-room s.tx_buffer p ready.ring)
        λ d inside. (record s { tx_buffer = d }, refl, put-IsReady k s d inside ready)

  pub emit_packet-IsReady :
      (k : ℕ) (r : Round) (s : Processor F) (samples : List ℤ)
      → IsReady k s
      → length samples ≡ 528
      → Gives (λ out. IsReady k out.0 × IsMade out.1) (emit_packet num strtof sine junk r s samples)
  unfolding emit_packet
  emit_packet-IsReady k r s samples ready long =
      let Done = λ (out : Processor F × Option Packet). IsReady k out.0 × IsMade out.1 in
      bind-Gives (λ out. IsReady k out.0 × (length out.1 ≡ 528)) Done _ _
        (averaged-IsReady k s samples ready long)
        λ out good.
          bind-Gives (IsReady k) Done _ _
            (stamped-IsReady k r (debugged num strtof sine junk out.0) good.0)
            λ s' ready'.
              bind-Gives IsMade Done _ _ (packet_of-IsMade k s' out.1 ready' good.1)
                λ o made. ((s', o), refl, (ready', made))
