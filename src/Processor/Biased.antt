-- ===== src/Processor/Biased.antt =====
-- The bias values in a frame's header: what is read of the other fields and of the samples stays.
use smurf_processor.Prelude.{
  ℕ, ◌+◌, ◌*◌, ◌≡◌, refl, ◌∙◌, ap, inr, List, ok, arith, length, tabulate_ext,
}
use smurf_processor.Prelude.Int.{ℤ, signed}
use smurf_processor.Prelude.Bytes.{
  IsBytes, word, write, word-write_apart, write-IsBytes, length-write,
}
use smurf_processor.Header as H
use smurf_processor.Header.{Header, average_control}
use smurf_processor.Header.Averaging.{IsFrame, runs}
use smurf_processor.Frame.{samples_from}
use smurf_processor.Processor.{Round, Processor, buffer, with_buffer, raw_data}
use smurf_processor.Processor.Reading.{pull, put_field-Keeps}
use smurf_processor.Processor.Ready.{IsReady, buffer-IsRoom}
use smurf_processor.Filter.{Arith}

module _ (junk : ℕ) (h bias : List ℕ) (frame : IsFrame h) (bytes : IsBytes bias)
    (full : length bias ≡ 40) where
  abbrev biased : List ℕ
  biased = write h 8 bias

  biased-IsFrame : IsFrame biased
  biased-IsFrame =
      (write-IsBytes bias h 8 bytes frame.0, omega (arith, length-write bias h 8, frame.1))

  pub get_test_mode-write : H.get_test_mode junk biased ≡ H.get_test_mode junk h
  unfolding H.get_test_mode
  get_test_mode-write =
      rw
        (
          pull junk biased biased-IsFrame 104 2 (omega arith) (omega arith),
          pull junk h frame 104 2 (omega arith) (omega arith),
          word-write_apart 2 104 bias h 8 (inr (omega arith)),
        )
        refl

  pub average_control-write :
      (time : ℕ × ℕ) (s : Header) (num : ℤ)
      → average_control junk biased time s num ≡ average_control junk h time s num
  average_control-write time s num =
      rw
        (
          runs junk biased biased-IsFrame time s num,
          runs junk h frame time s num,
          word-write_apart 5 96 bias h 8 (inr (omega arith)),
          word-write_apart 4 68 bias h 8 (inr (omega arith)),
        )
        refl

  pub samples_from-write : (n j : ℕ) → samples_from n j biased ≡ samples_from n j h
  unfolding samples_from
  samples_from-write n j =
      tabulate_ext n j (λ i. signed 16 (word 2 biased (128 + 2 * i)))
        (λ i. signed 16 (word 2 h (128 + 2 * i)))
        λ i. ap (signed 16) (word-write_apart 2 (128 + 2 * i) bias h 8 (inr (omega arith)))

module _ {F : Type 0} (num : Arith F) (strtof : List ℕ → F) (sine : ℕ → ℕ → ℤ) (junk : ℕ) where
  -- Without test data
  pub raw_data_plain :
      (k : ℕ) (r : Round) (s : Processor F)
      → IsReady k s
      → H.get_test_mode junk (buffer s) ≡ ok 0
      → raw_data num strtof sine junk r s ≡ ok (with_buffer s (write (buffer s) 8 s.tes_bias))
  unfolding raw_data
  raw_data_plain k r s ready mode =
      let room = buffer-IsRoom k s ready in
      let frame : IsFrame (buffer s) = (room.0, omega (arith, room.1)) in
      let biased = write (buffer s) 8 s.tes_bias in
      let (e, keeps) =
        put_field-Keeps (buffer s) 8 40 s.tes_bias room.0 ready.bias ready.bias_size
          (omega (arith, room.1)) in
      rw (e, get_test_mode-write junk (buffer s) s.tes_bias frame ready.bias ready.bias_size ∙ mode)
        refl
