-- ===== src/Threads/Mixed/Tests.antt =====
-- A ring of three packets in which one waits.
use smurf_processor.Prelude.{
  ℕ, ◌≡◌, ◌≢◌, refl, true, false, some, [], ◌∷◌, ok, arith, get_elem?, ◌>>=◌,
}
use smurf_processor.DataBuffer.{Reader, DataBuffer, is_empty, get_read_ptr}
use smurf_processor.DataBuffer.View.{Holds}
use smurf_processor.Threads.Parts.{Flow, act, act_all, reading_parts}
use smurf_processor.Threads.Mixed.{
  write_in_reading, readings_in_write, act_all_missed, act_all_stale,
}

abbrev waiting : Reader
waiting = record {
  read_ptr = 1;
  full = false;
  empty = false;
  read_cnt = 1;
  ow_cnt = 0;
  rof_cnt = 0;
}

abbrev ring : DataBuffer ℕ
ring = record {
  size = 3;
  slots = 7 ∷ 8 ∷ 0 ∷ [];
  readers = waiting ∷ [];
  write_ptr = 2;
  write_cnt = 2;
}

waiting-Holds : Holds 3 2 1 waiting
waiting-Holds = record {
  write_in = omega arith;
  read_in = omega arith;
  fits = omega arith;
  ends = omega arith;
  full_flag = refl;
  empty_flag = refl;
}

in_order :
    (act_all 0 (reading_parts) (record { ring = ring; matched = false }) >>= λ f. is_empty f.ring 0)
    ≡ ok true
unfolding act_all act is_empty
in_order = refl

act_all_missed_example :
    (f : Flow ℕ) × (r' : Reader) × (act_all 0
        (write_in_reading 9)
        (record { ring = ring; matched = false })
      ≡ ok f)
    × (is_empty f.ring 0 ≡ ok true)
    × (get_elem? f.ring.readers 0 ≡ some r')
    × (get_elem? f.ring.slots r'.read_ptr ≡ some 9)
    × (r'.read_ptr ≢ f.ring.write_ptr)
act_all_missed_example = act_all_missed 0 ring false waiting 9 refl waiting-Holds refl (omega arith)

act_all_stale_example :
    (f : Flow ℕ) × (r' : Reader) × (act_all 0
        (readings_in_write 9)
        (record { ring = ring; matched = false })
      ≡ ok f)
    × (is_empty f.ring 0 ≡ ok false)
    × (get_elem? f.ring.readers 0 ≡ some r')
    × (r'.full ≡ false)
    × (get_read_ptr f.ring 0 ≡ (f.ring, ok f.ring.write_ptr))
act_all_stale_example = act_all_stale 0 ring false waiting 9 refl waiting-Holds refl (omega arith)
