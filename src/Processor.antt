-- ===== src/Processor.antt =====
-- `SmurfProcessor` of include/smurf_processor.h and src/smurf_processor.cpp: its state, and the body of the
-- loop of `runThread` for one frame, composed of the parts. What the outside gives in a round is a
-- `Round`: the frame, the clocks, the numbers of `rand`, and the two files where they are read.
-- Output to the terminal is left out, and so are the counters that nothing writes (`rxCount`, ...).
pub mod Reading
pub mod Ready
pub mod Steps
pub mod Output
pub mod Stamp
pub mod Packets
pub mod Biased
pub mod Frames
pub mod Runs
pub mod Alone
pub mod Ringless
pub mod Access
mod Tests
use smurf_processor.Prelude.{
  ℕ, ◌+◌, ◌-◌, ◌*◌, ◌/◌, ◌%◌, ◌^◌, ◌==◌, if◌then◌else◌, Bool, true, false, not, ◌&&◌, List, [], ◌∷◌,
  map, Option, Result, ok, ◌>>=◌, length, replicate,
}
use smurf_processor.Prelude.Int.{ℤ, pos, unsigned}
use smurf_processor.Prelude.Bytes.{le_bytes}
use smurf_processor.Packet.{Packet, new_packet, from_arrays, smurf_samples}
use smurf_processor.Header as H
use smurf_processor.Header.{
  Header, new_header, put_field, set_num_channels, average_control, get_syncword, get_1hz_counter,
  get_epics_nanoseconds, get_clear_bit, get_test_parameter,
}
use smurf_processor.Header.Layout.{
  h_tes_dac_offset, h_tes_dac_width, h_unix_time_offset, h_unix_time_width,
}
use smurf_processor.TesBias.{tes_bias_buffer_size}
use smurf_processor.TesBias as TesBias
use smurf_processor.DataBuffer.{DataBuffer, new_buffer, write_packet}
use smurf_processor.Unwrap.{wrap_start, smurf_raw_samples, unwrap_samples, read_mask}
use smurf_processor.Filter.{Arith, Filter, new_filter, clear_filter, end_run, filter}
use smurf_processor.Config.{Config, read_config_file, new_config}
use smurf_processor.TestData.{TestData, new_test_data, gen_test_smurf_data, gen_test_mce_data}
use smurf_processor.Timing.{ValidCheck, new_valid_check, valid_check_reset, run}
use smurf_processor.FrameCount.{FrameCount, new_count, count_number}
use smurf_processor.Frame.{
  RogueFrame, pyrogue_buffer_length, frame_to_buffer, samples_from, store_samples,
}

pub record Round : Type 0 where
  pub frame : RogueFrame
  pub time : ℕ × ℕ
  pub unix : ℕ
  pub random : ℕ → ℤ
  pub config_file : Option (List (List ℕ))
  pub mask_file : Option (List ℕ)

-- The buffers are `b[0]` and `b[1]`.
pub record Processor (F : Type 0) : Type 0 where
  pub b0 : List ℕ
  pub b1 : List ℕ
  pub bufn : ℕ
  pub wrap_counter : List ℤ
  pub mask : List ℕ
  pub input_data : List ℤ
  pub tes_bias : List ℕ
  pub internal_counter : ℕ
  pub fast_internal_counter : ℕ
  pub last_frame_counter : ℕ
  pub last_1hz_counter : ℕ
  pub last_epicsns : ℕ
  pub debug : Bool
  pub header : Header
  pub config : Config F
  pub filter : Filter F
  pub test_data : TestData
  pub valid_check : ValidCheck
  pub count : FrameCount
  pub tx_buffer : DataBuffer Packet

abbrev pub slow_divider : ℕ
slow_divider = 200

module _ {F : Type 0} where
  -- Behind the swap, `buffer` is the one that `bufn` does not name, and `buffer_last` the other.
  abbrev pub buffer : Processor F → List ℕ
  buffer s = if s.bufn == 0 then s.b1 else s.b0

  abbrev pub buffer_last : Processor F → List ℕ
  buffer_last s = if s.bufn == 0 then s.b0 else s.b1

  abbrev pub with_buffer : Processor F → List ℕ → Processor F
  with_buffer s buf = record s {
    b0 = if s.bufn == 0 then s.b0 else buf;
    b1 = if s.bufn == 0 then buf else s.b1;
  }

  abbrev pub swapped : Processor F → Processor F
  swapped s = record s { bufn = if s.bufn == 0 then 1 else 0 }

  -- The copy of a frame into the next buffer
  unfoldable pub receive : Round → Processor F → Result (Processor F)
  receive r s₀ = do
    let s = swapped s₀
    buf ← frame_to_buffer r.frame (buffer s)
    ok (with_buffer (record s { header = H.copy_header s.header }) buf)

  -- `setTesBias(index, value)`
  unfoldable pub set_tes_bias : Processor F → ℕ → ℤ → Result (Processor F)
  set_tes_bias s index value = do
    bias ← TesBias.set_word s.tes_bias 0 index value
    ok (record s { tes_bias = bias })

module _ {F : Type 0} (num : Arith F) (strtof : List ℕ → F) (sine : ℕ → ℕ → ℤ) (junk : ℕ) where
  -- The constructor, with the files that it reads. `one` is the number 1, and `words` are
  -- what the allocation and the constructors leave in the fields that they do not set.
  unfoldable pub new_processor :
      F → ℕ → Option (List (List ℕ)) → Option (List ℕ) → Result (Processor F)
  new_processor one words config_file mask_file = do
    config ← new_config strtof num.null one config_file
    ok (record {
      b0 = replicate pyrogue_buffer_length 0;
      b1 = replicate pyrogue_buffer_length 0;
      bufn = 0;
      wrap_counter = replicate smurf_samples wrap_start;
      mask = read_mask mask_file (replicate smurf_samples 0);
      input_data = replicate smurf_samples (pos 0);
      tes_bias = replicate tes_bias_buffer_size 0;
      internal_counter = 0;
      fast_internal_counter = 0;
      last_frame_counter = 0;
      last_1hz_counter = 0;
      last_epicsns = words;
      debug = false;
      header = new_header;
      config = config;
      filter = new_filter num smurf_samples 16;
      test_data = new_test_data smurf_raw_samples smurf_samples;
      valid_check = new_valid_check words;
      count = new_count;
      tx_buffer = new_buffer new_packet 10 2;
    })

  -- The bias values go into the header, and the test data in place of the raw samples.
  unfoldable pub raw_data : Round → Processor F → Result (Processor F)
  raw_data r s = do
    biased ← put_field (buffer s) h_tes_dac_offset h_tes_dac_width s.tes_bias
    mode ← H.get_test_mode junk biased
    let generated = do
      sync ← get_syncword junk biased
      param ← get_test_parameter junk biased
      let (t, samples) =
          gen_test_smurf_data r.random sine (samples_from smurf_raw_samples 0 biased) mode sync
            param s.test_data
      buf ← store_samples biased samples
      ok (record (with_buffer s buf) { test_data = t })
    if mode == 0 then ok (with_buffer s biased) else generated

  unfoldable pub unwrapped : Processor F → Result (Processor F)
  unwrapped s = do
    (wraps, inputs) ←
        unwrap_samples smurf_samples (samples_from smurf_raw_samples 0 (buffer s))
          (samples_from smurf_raw_samples 0 (buffer_last s)) s.mask s.wrap_counter s.input_data
    ok (record s { wrap_counter = wraps; input_data = inputs })

  -- The low-pass filter, and `average_control`
  unfoldable pub filtered : Round → Processor F → Result (Processor F × List ℤ × ℕ)
  filtered r s = do
    let c = s.config
    (f, samples) ← filter num c.filter_a c.filter_b s.filter s.input_data c.filter_order c.filter_g
    (h, cnt) ← average_control junk (buffer s) r.time s.header c.num_averages
    ok (record s { filter = f; header = h }, samples, cnt)

  -- The clear bit
  unfoldable pub cleared : Processor F → Result (Processor F)
  cleared s = do
    bit ← get_clear_bit junk (buffer s)
    if bit == 0
        then ok s
        else ok (record s {
          wrap_counter = replicate (length s.wrap_counter) wrap_start;
          header = H.clear_average s.header;
          filter = clear_filter num s.filter;
        })

  -- The bit that has the files read, at once and then in every 5000th frame
  unfoldable pub configured : Round → Processor F → Result (Processor F)
  configured r s = do
    bit ← H.read_config_file junk (buffer s)
    let counted = record s { fast_internal_counter = (s.fast_internal_counter + 1) % 2 ^ 32 }
    let read = read_config_file strtof r.config_file s.config >>= λ c.
        ok (record counted { config = c; mask = read_mask r.mask_file s.mask })
    if bit == 0
        then ok (record s { fast_internal_counter = 0 })
        else if s.fast_internal_counter % 5000 == 0
        then read
        else ok counted

  -- The end of a frame that completes no average
  unfoldable pub noted : Processor F → Result (Processor F)
  noted s = do
    frame ← H.get_frame_counter junk (buffer s)
    hz ← get_1hz_counter junk (buffer s)
    ok (record s { last_frame_counter = frame; last_1hz_counter = hz })

  -- The end of the filter's run, and the test data in place of the filtered samples
  unfoldable pub averaged : Processor F → List ℤ → Result (Processor F × List ℤ)
  averaged s samples = do
    let ended = record s { filter = end_run num s.filter }
    mode ← H.get_test_mode junk (buffer s)
    let replaced = do
      sync ← get_syncword junk (buffer s)
      param ← get_test_parameter junk (buffer s)
      let (t, generated) = gen_test_mce_data samples mode sync param s.test_data
      ok (record ended { test_data = t }, generated)
    if mode == 0 then ok (ended, samples) else replaced

  -- The counter of the diagnostic output, which resets the timing checks each time it is made
  abbrev pub debugged : Processor F → Processor F
  debugged s = record s {
    internal_counter = if s.debug then (s.internal_counter + 1) % 2 ^ 32 else s.internal_counter;
    valid_check =
        if s.debug && s.internal_counter % slow_divider == 0
        then valid_check_reset s.valid_check
        else s.valid_check;
  }

  -- The timing checks, and the fields of the header that they and the processor set
  unfoldable pub stamped : Round → Processor F → Result (Processor F)
  stamped r s = do
    ns ← get_epics_nanoseconds junk (buffer s)
    (v, logged) ← run junk (buffer s) r.unix s.valid_check
    timed ←
        put_field (buffer s) h_unix_time_offset h_unix_time_width (le_bytes 8 v.unix_time.current)
    complete ← set_num_channels timed smurf_samples
    ok (with_buffer (record s { last_epicsns = ns; valid_check = v }) complete)

  -- A packet into the ring, if packets are written at all
  unfoldable pub sent : Processor F → List ℤ → Result (Processor F)
  sent s samples = do
    let put = from_arrays (buffer s) samples >>= λ p.
        write_packet s.tx_buffer p >>= λ d. ok (record s { tx_buffer = d })
    if unsigned 32 s.config.data_frames == 0 then ok s else put

  unfoldable pub emit : Round → Processor F → List ℤ → Result (Processor F)
  emit r s samples = do
    (s₁, payload) ← averaged s samples
    s₂ ← stamped r (debugged s₁)
    sent s₂ payload

  -- The body of the loop behind the test of the frame number
  unfoldable pub process : Round → Processor F → Result (Processor F)
  process r s = do
    s₁ ← raw_data r s
    s₂ ← unwrapped s₁
    (s₃, samples, cnt) ← filtered r s₂
    s₄ ← cleared s₃
    s₅ ← configured r s₄
    if cnt == 0 then noted s₅ else emit r s₅ samples

  -- The body of the loop of `runThread`
  unfoldable pub step : Round → Processor F → Result (Processor F)
  step r s₀ = do
    s ← receive r s₀
    number ← H.get_frame_counter junk (buffer s)
    let (count, accepted) = count_number s.count number
    let counted = record s { count = count }
    if accepted then process r counted else ok counted

  unfoldable pub run_thread : List Round → Processor F → Result (Processor F)
  run_thread [] s = ok s
  run_thread (r ∷ rounds) s = step r s >>= run_thread rounds
