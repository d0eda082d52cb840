-- ===== src/Threads/Parts.antt =====
-- `doneWriting` and `doneReading` in the parts that touch one variable each. The code takes no lock for them, so that
-- the parts of the writer's call and those of a reader's call can mix.
use smurf_processor.Prelude.{
  ℕ, ◌==◌, if◌then◌else◌, Bool, true, false, none, some, List, [], ◌∷◌, map, Result, ok, throw,
  out_of_range, ◌>>=◌, get_elem?, set,
}
use smurf_processor.DataBuffer.{Reader, DataBuffer, advance, count_up, get_write_ptr, fill}

-- The statements of the two calls in the code's order, behind the writer's copy of a packet into the slot that
-- `getWritePtr` gives it. `compare` is the condition of the `if` before `mark_empty`.
pub data Part {ℓ} (A : Type ℓ) : Type ℓ where
  put : A → Part A
  move_writer : Part A
  mark_full : Part A
  clear_empty : Part A
  count_write : Part A
  move_reader : Part A
  compare : Part A
  mark_empty : Part A
  clear_full : Part A
  count_read : Part A

-- `matched` is what the reader's comparison gave.
pub record Flow {ℓ} (A : Type ℓ) : Type ℓ where
  pub ring : DataBuffer A
  pub matched : Bool

abbrev pub marked_full : ℕ → Reader → Reader
marked_full w r = record r { full = if w == r.read_ptr then true else r.full }

abbrev pub with_empty : Bool → Reader → Reader
with_empty b r = record r { empty = b }

abbrev pub moved : ℕ → Reader → Reader
moved size r = record r { read_ptr = advance size r.read_ptr }

abbrev pub marked_empty : Bool → Reader → Reader
marked_empty b r = record r { empty = if b then true else r.empty }

abbrev pub without_full : Reader → Reader
without_full r = record r { full = false }

abbrev pub counted : Reader → Reader
counted r = record r { read_cnt = count_up r.read_cnt }

module _ {ℓ} {A : Type ℓ} where
  -- `.at(i)` of the vectors with one entry for each reader
  abbrev pub at_reader : (Reader → Reader) → ℕ → Flow A → Result (Flow A)
  at_reader change i f = elim (get_elem? f.ring.readers i) [
    | none ↦ throw out_of_range
    | some r ↦ ok (record f { ring = record f.ring { readers = set f.ring.readers i (change r) } })
  ]

  abbrev pub compared : ℕ → Flow A → Result (Flow A)
  compared i f = elim (get_elem? f.ring.readers i) [
    | none ↦ throw out_of_range
    | some r ↦ ok (record f { matched = r.read_ptr == f.ring.write_ptr })
  ]

  abbrev pub every_reader : (Reader → Reader) → Flow A → Flow A
  every_reader change f = record f { ring = record f.ring { readers = map change f.ring.readers } }

  abbrev pub put_packet : A → Flow A → Result (Flow A)
  put_packet a f = get_write_ptr f.ring >>= λ given. ok (record f { ring = fill given.0 given.1 a })

  -- One part, the reader's with the index `i`
  unfoldable pub act : ℕ → Part A → Flow A → Result (Flow A)
  act i (put a) f = put_packet a f
  act i move_writer f =
      ok (record f { ring = record f.ring { write_ptr = advance f.ring.size f.ring.write_ptr } })
  act i mark_full f = ok (every_reader (marked_full f.ring.write_ptr) f)
  act i clear_empty f = ok (every_reader (with_empty false) f)
  act i count_write f =
      ok (record f { ring = record f.ring { write_cnt = count_up f.ring.write_cnt } })
  act i move_reader f = at_reader (moved f.ring.size) i f
  act i compare f = compared i f
  act i mark_empty f = at_reader (marked_empty f.matched) i f
  act i clear_full f = at_reader without_full i f
  act i count_read f = at_reader counted i f

  unfoldable pub act_all : ℕ → List (Part A) → Flow A → Result (Flow A)
  act_all i [] f = ok f
  act_all i (p ∷ ps) f = act i p f >>= act_all i ps

  abbrev pub writing_parts : List (Part A)
  writing_parts = move_writer ∷ mark_full ∷ clear_empty ∷ count_write ∷ []

  abbrev pub reading_parts : List (Part A)
  reading_parts = move_reader ∷ compare ∷ mark_empty ∷ clear_full ∷ count_read ∷ []
