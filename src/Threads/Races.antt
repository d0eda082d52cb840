-- ===== src/Threads/Races.antt =====
-- Two threads at one slot.
mod Tests
use smurf_processor.Prelude.{
  ℕ, ◌<◌, ◌≡◌, refl, true, false, [], none, some, map, ok, lt→ltb, arith, get_elem?, ==_self,
}
use smurf_processor.DataBuffer.{Reader, overrun, get_write_ptr, get_read_ptr}
use smurf_processor.DataBuffer.View.{Holds}
use smurf_processor.Threads.Steps.{System, for_reader, Step, begin_write, begin_read}
use smurf_processor.Threads.Placed.{IsPlaced}

module _ {ℓ} {A : Type ℓ} where
  -- Where a reader has the whole ring waiting and neither it nor the writer is at work, it can be given a slot, and the
  -- writer after it the same one: two steps lead to a state in which one thread writes the packet that
  -- the other reads. The reader's pointer and flags agree with the writer's before.
  pub Step_same_slot :
      (s : System A) (i : ℕ) (r : Reader)
      → s.ring.write_ptr < s.ring.size
      → IsPlaced s.ring.size s.ring.write_ptr r
      → s.writing ≡ none
      → s.write_ending ≡ []
      → s.reading i ≡ none
      → s.read_ending i ≡ []
      → get_elem? s.ring.readers i ≡ some r
      → r.full ≡ true
      → (t : System A) × (u : System A) × (slot : ℕ) × Step s t
        × Step t u
        × (u.writing ≡ some slot)
        × (u.reading i ≡ some slot)
  unfolding get_read_ptr get_write_ptr
  Step_same_slot s i r inside placed idle done free ready at full =
      let (n, h) = placed in
      let some_left : r.empty ≡ false = ground (arith, h.full_flag, h.empty_flag, h.write_in) in
      let here : r.read_ptr ≡ s.ring.write_ptr =
        ground (arith, h.full_flag, h.ends, h.write_in, h.read_in) in
      let given : get_read_ptr s.ring i ≡ (s.ring, ok s.ring.write_ptr) =
        ground (arith, h.read_in) in
      let t : System A = record s { reading = for_reader s.reading i (some s.ring.write_ptr) } in
      (
        t,
        record t {
          ring = record s.ring { readers = map overrun s.ring.readers };
          writing = some s.ring.write_ptr;
        },
        s.ring.write_ptr,
        begin_read i free ready given,
        begin_write idle done (rw (lt→ltb s.ring.write_ptr s.ring.size inside) refl),
        refl,
        rw (==_self i) refl,
      )
