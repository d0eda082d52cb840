-- ===== src/Threads/Watch.antt =====
-- What the parts of `doneWriting` and `doneReading` do to one reader, the writer's pointer and the slots.
use smurf_processor.Prelude.{
  ℕ, ◌<◌, ◌≡◌, refl, sym, ◌∙◌, ap, ap₂, ◌==◌, Bool, true, false, some, List, [], ◌∷◌, map, ok, ltb,
  lt→ltb, arith, get_elem?, get_elem?-map, set,
}
use mathlib.Core.Path.{subst}
use smurf_processor.DataBuffer.{Reader, advance, overrun, get_write_ptr, fill}
use smurf_processor.Threads.Placed.{set_found}
use smurf_processor.Threads.Parts.{
  Part, put, move_writer, mark_full, clear_empty, count_write, move_reader, compare, mark_empty,
  clear_full, count_read, Flow, marked_full, with_empty, moved, marked_empty, without_full, counted,
  at_reader, compared, act, act_all,
}

pub record Place {ℓ} (A : Type ℓ) : Type ℓ where
  pub write_ptr : ℕ
  pub slots : List A
  pub reader : Reader
  pub matched : Bool

module _ {ℓ} {A : Type ℓ} where
  -- One part, as the reader sees it
  abbrev pub seen : ℕ → Part A → Place A → Place A
  seen size (put a) p = record p { slots = set p.slots p.write_ptr a; reader = overrun p.reader }
  seen size move_writer p = record p { write_ptr = advance size p.write_ptr }
  seen size mark_full p = record p { reader = marked_full p.write_ptr p.reader }
  seen size clear_empty p = record p { reader = with_empty false p.reader }
  seen size count_write p = p
  seen size move_reader p = record p { reader = moved size p.reader }
  seen size compare p = record p { matched = p.reader.read_ptr == p.write_ptr }
  seen size mark_empty p = record p { reader = marked_empty p.matched p.reader }
  seen size clear_full p = record p { reader = without_full p.reader }
  seen size count_read p = record p { reader = counted p.reader }

  abbrev pub seen_all : ℕ → List (Part A) → Place A → Place A
  seen_all size [] p = p
  seen_all size (part ∷ parts) p = seen_all size parts (seen size part p)

  pub record Shows (i size : ℕ) (f : Flow A) (p : Place A) : Type ℓ where
    pub found : get_elem? f.ring.readers i ≡ some p.reader
    pub room : f.ring.size ≡ size
    pub writer : f.ring.write_ptr ≡ p.write_ptr
    pub stored : f.ring.slots ≡ p.slots
    pub same : f.matched ≡ p.matched

  at_reader-Shows :
      (change : Reader → Reader) (i size : ℕ) (f : Flow A) (p : Place A)
      → Shows i size f p
      → (f' : Flow A) × (at_reader change i f ≡ ok f')
        × Shows i size f' (record p { reader = change p.reader })
  at_reader-Shows change i size f p s = (
    record f { ring = record f.ring { readers = set f.ring.readers i (change p.reader) } },
    rw (at_reader, s.found) refl,
    record {
      found = set_found f.ring.readers i p.reader (change p.reader) s.found;
      room = s.room;
      writer = s.writer;
      stored = s.stored;
      same = s.same;
    },
  )

  act-Shows :
      (part : Part A) (i size : ℕ) (f : Flow A) (p : Place A)
      → p.write_ptr < size
      → Shows i size f p
      → (f' : Flow A) × (act i part f ≡ ok f') × Shows i size f' (seen size part p)
  unfolding act get_write_ptr fill
  act-Shows (put a) i size f p inside s =
      let given : ltb f.ring.write_ptr f.ring.size ≡ true =
        rw (s.writer, s.room, lt→ltb p.write_ptr size inside) refl in
      (
        record f {
          ring = record f.ring {
            readers = map overrun f.ring.readers;
            slots = set f.ring.slots f.ring.write_ptr a;
          };
        },
        rw given refl,
        record {
          found = get_elem?-map overrun f.ring.readers i p.reader s.found;
          room = s.room;
          writer = s.writer;
          stored = ap₂ (λ xs w. set xs w a) s.stored s.writer;
          same = s.same;
        },
      )
  act-Shows move_writer i size f p inside s = (
    _,
    refl,
    record {
      found = s.found;
      room = s.room;
      writer = ap₂ advance s.room s.writer;
      stored = s.stored;
      same = s.same;
    },
  )
  act-Shows mark_full i size f p inside s = (
    _,
    refl,
    record {
      found =
          ap (λ w. get_elem? (map (marked_full w) f.ring.readers) i) s.writer
          ∙ get_elem?-map (marked_full p.write_ptr) f.ring.readers i p.reader s.found;
      room = s.room;
      writer = s.writer;
      stored = s.stored;
      same = s.same;
    },
  )
  act-Shows clear_empty i size f p inside s = (
    _,
    refl,
    record {
      found = get_elem?-map (with_empty false) f.ring.readers i p.reader s.found;
      room = s.room;
      writer = s.writer;
      stored = s.stored;
      same = s.same;
    },
  )
  act-Shows count_write i size f p inside s = (
    _,
    refl,
    record { found = s.found; room = s.room; writer = s.writer; stored = s.stored; same = s.same },
  )
  act-Shows move_reader i size f p inside s =
      subst
        (λ n.
          (f' : Flow A) × (at_reader (moved n) i f ≡ ok f')
          × Shows i size f' (record p { reader = moved size p.reader }))
        (sym s.room) (at_reader-Shows (moved size) i size f p s)
  act-Shows compare i size f p inside s = (
    record f { matched = p.reader.read_ptr == f.ring.write_ptr },
    rw (compared, s.found) refl,
    record {
      found = s.found;
      room = s.room;
      writer = s.writer;
      stored = s.stored;
      same = ap (λ w. p.reader.read_ptr == w) s.writer;
    },
  )
  act-Shows mark_empty i size f p inside s =
      subst
        (λ b.
          (f' : Flow A) × (at_reader (marked_empty b) i f ≡ ok f')
          × Shows i size f' (record p { reader = marked_empty p.matched p.reader }))
        (sym s.same) (at_reader-Shows (marked_empty p.matched) i size f p s)
  act-Shows clear_full i size f p inside s = at_reader-Shows without_full i size f p s
  act-Shows count_read i size f p inside s = at_reader-Shows counted i size f p s

  seen_inside :
      (size : ℕ) (part : Part A) (p : Place A)
      → p.write_ptr < size
      → (seen size part p).write_ptr < size
  seen_inside size (put a) p h = h
  seen_inside size move_writer p h = ground arith
  seen_inside size mark_full p h = h
  seen_inside size clear_empty p h = h
  seen_inside size count_write p h = h
  seen_inside size move_reader p h = h
  seen_inside size compare p h = h
  seen_inside size mark_empty p h = h
  seen_inside size clear_full p h = h
  seen_inside size count_read p h = h

  pub act_all-Shows :
      (parts : List (Part A)) (i size : ℕ) (f : Flow A) (p : Place A)
      → p.write_ptr < size
      → Shows i size f p
      → (f' : Flow A) × (act_all i parts f ≡ ok f') × Shows i size f' (seen_all size parts p)
  unfolding act_all
  act_all-Shows [] i size f p inside s = (f, refl, s)
  act_all-Shows (part ∷ parts) i size f p inside s =
      let (f₁, e₁, s₁) = act-Shows part i size f p inside s in
      let (f₂, e₂, s₂) =
        act_all-Shows parts i size f₁ (seen size part p) (seen_inside size part p inside) s₁ in
      (f₂, rw (e₁, e₂) refl, s₂)
