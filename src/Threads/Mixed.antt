-- ===== src/Threads/Mixed.antt =====
-- Two orders in which the parts of `doneWriting` and `doneReading` mix, and the flags that they leave.
mod Tests
use smurf_processor.Prelude.{
  ℕ, ◌+◌, ◌<◌, ◌≡◌, ◌≢◌, refl, sym, ◌∙◌, ap, Bool, true, false, none, some, List, [], ◌∷◌, Result,
  ok, arith, length, get_elem?, get_elem?-set_self, ltb, lt→ltb,
}
use smurf_processor.DataBuffer.{Reader, DataBuffer, advance, is_empty, get_read_ptr}
use smurf_processor.DataBuffer.View.{Holds}
use smurf_processor.Threads.Parts.{
  Part, put, move_writer, mark_full, clear_empty, count_write, move_reader, compare, mark_empty,
  clear_full, count_read, Flow, act_all,
}
use smurf_processor.Threads.Watch.{Place, seen_all, Shows, act_all-Shows}

module _ {ℓ} {A : Type ℓ} where
  -- A whole write between the reader's comparison and what follows from it
  abbrev pub write_in_reading : A → List (Part A)
  write_in_reading a =
      move_reader
      ∷ compare
      ∷ put a
      ∷ move_writer
      ∷ mark_full
      ∷ clear_empty
      ∷ count_write
      ∷ mark_empty
      ∷ clear_full
      ∷ count_read
      ∷ []

  -- Two turns of the reader before the writer has set the flags `empty`
  abbrev pub readings_in_write : A → List (Part A)
  readings_in_write a =
      put a
      ∷ move_writer
      ∷ mark_full
      ∷ move_reader
      ∷ compare
      ∷ mark_empty
      ∷ clear_full
      ∷ count_read
      ∷ move_reader
      ∷ compare
      ∷ mark_empty
      ∷ clear_full
      ∷ count_read
      ∷ clear_empty
      ∷ count_write
      ∷ []

  start_Place : DataBuffer A → Bool → Reader → Place A
  start_Place d matched r = record {
    write_ptr = d.write_ptr;
    slots = d.slots;
    reader = r;
    matched = matched;
  }

  is_empty-Shows :
      (i size : ℕ) (f : Flow A) (p : Place A)
      → Shows i size f p
      → is_empty f.ring i ≡ ok p.reader.empty
  unfolding is_empty
  is_empty-Shows i size f p s = rw (is_empty, s.found) refl

  get_read_ptr-Shows :
      (i size : ℕ) (f : Flow A) (p : Place A)
      → p.reader.empty ≡ false
      → p.reader.read_ptr < size
      → Shows i size f p
      → get_read_ptr f.ring i ≡ (f.ring, ok p.reader.read_ptr)
  unfolding get_read_ptr
  get_read_ptr-Shows i size f p some_left inside s =
      rw (get_read_ptr, s.found, some_left, s.room, lt→ltb p.reader.read_ptr size inside) refl

  module _ (i : ℕ) (d : DataBuffer A) (matched : Bool) (r : Reader) (a : A)
      (at : get_elem? d.readers i ≡ some r) (one : Holds d.size d.write_ptr 1 r)
      (room : length d.slots ≡ d.size) where
    shown : Shows i d.size (record { ring = d; matched = matched }) (start_Place d matched r)
    unfolding start_Place
    shown = record { found = at; room = refl; writer = refl; stored = refl; same = refl }

    -- One packet waits for the reader and the ring has room. If the reader finds its pointer at the writer's, and the
    -- writer's next packet comes in whole before the reader goes on, then the ring is empty by
    -- its flag although that packet waits for the reader.
    pub act_all_missed :
        1 < d.size
        → (f : Flow A) × (r' : Reader) × (act_all i
              (write_in_reading a)
              (record { ring = d; matched = matched })
            ≡ ok f)
          × (is_empty f.ring i ≡ ok true)
          × (get_elem? f.ring.readers i ≡ some r')
          × (get_elem? f.ring.slots r'.read_ptr ≡ some a)
          × (r'.read_ptr ≢ f.ring.write_ptr)
    unfolding start_Place
    act_all_missed big =
        let p = start_Place d matched r in
        let (f, e, s) =
          act_all-Shows (write_in_reading a) i d.size (record { ring = d; matched = matched }) p
            one.write_in shown in
        let p' = seen_all d.size (write_in_reading a) p in
        let at_writer : advance d.size r.read_ptr ≡ d.write_ptr =
          ground (arith, one.ends, one.read_in, one.write_in) in
        let flag : p'.reader.empty ≡ true =
          ground (arith, one.ends, one.read_in, one.write_in, one.full_flag) in
        let here : p'.reader.read_ptr ≡ d.write_ptr =
          ground (arith, one.ends, one.read_in, one.write_in, one.full_flag) in
        (
          f,
          p'.reader,
          e,
          is_empty-Shows i d.size f p' s ∙ ap ok flag,
          s.found,
          rw (s.stored, here)
              (get_elem?-set_self d.slots d.write_ptr a (omega (arith, room, one.write_in))),
          ground (arith, here, s.writer, one.write_in),
        )

    -- One packet waits for the reader. If the reader takes it and the next one before the writer has set the flags
    -- `empty`, then the ring is not empty by its flag although no packet waits for the reader, which is
    -- given the slot that the writer fills next.
    pub act_all_stale :
        1 < d.size
        → (f : Flow A) × (r' : Reader) × (act_all i
              (readings_in_write a)
              (record { ring = d; matched = matched })
            ≡ ok f)
          × (is_empty f.ring i ≡ ok false)
          × (get_elem? f.ring.readers i ≡ some r')
          × (r'.full ≡ false)
          × (get_read_ptr f.ring i ≡ (f.ring, ok f.ring.write_ptr))
    unfolding start_Place
    act_all_stale big =
        let p = start_Place d matched r in
        let (f, e, s) =
          act_all-Shows (readings_in_write a) i d.size (record { ring = d; matched = matched }) p
            one.write_in shown in
        let p' = seen_all d.size (readings_in_write a) p in
        let at_writer : advance d.size r.read_ptr ≡ d.write_ptr =
          ground (arith, one.ends, one.read_in, one.write_in) in
        let here : p'.reader.read_ptr ≡ advance d.size d.write_ptr =
          ground (arith, at_writer, one.full_flag) in
        let inside : p'.reader.read_ptr < d.size = ground (arith, here, one.write_in) in
        (
          f,
          p'.reader,
          e,
          is_empty-Shows i d.size f p' s,
          s.found,
          refl,
          get_read_ptr-Shows i d.size f p' refl inside s
              ∙ ap (λ w. (f.ring, ok w)) (here ∙ sym s.writer),
        )
