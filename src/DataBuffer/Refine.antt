-- ===== src/DataBuffer/Refine.antt =====
-- The ring against its readers' queues.
use smurf_processor.Prelude.{
  ℕ, zero, suc, ◌<◌, ◌≡◌, refl, ap₂, ◌∙◌, true, false, none, some, List, [], ◌∷◌, ◌++◌, map, Result,
  ok, throw, fault, runtime_error, out_of_range, arith, length, get_elem?, set, length-set,
  replicate, length-replicate, All, lt→ltb,
}
use smurf_processor.DataBuffer.{
  Reader, DataBuffer, new_reader, advance, overrun, written, consumed, count_up, new_buffer,
  write_packet, read_packet,
}
use smurf_processor.DataBuffer.Spec.{
  Op, write, read, tail, dequeue, read_queue, rest_queues, spec_run, KeepsUp,
}
use smurf_processor.DataBuffer.View.{Sees, written-Sees, consumed-Sees}

module _ {ℓ} {A : Type ℓ} where
  -- Each reader sees the queue of its index.
  pub data AllSee (size w : ℕ) (slots : List A) : List Reader → List (List A) → Type ℓ where
    nil : AllSee size w slots [] []
    cons :
        {r : Reader} {q : List A} {rs : List Reader} {qs : List (List A)}
        → Sees size w slots r q
        → AllSee size w slots rs qs
        → AllSee size w slots (r ∷ rs) (q ∷ qs)

  -- The ring stands for these queues.
  pub record Represents (d : DataBuffer A) (qs : List (List A)) : Type ℓ where
    pub room : length d.slots ≡ d.size
    pub write_in : d.write_ptr < d.size
    pub all_see : AllSee d.size d.write_ptr d.slots d.readers qs

  new-AllSee :
      (slots : List A) (size n : ℕ)
      → 0 < size
      → AllSee size 0 slots (replicate n new_reader) (replicate n [])
  new-AllSee slots size zero h = nil
  new-AllSee slots size (suc n) h = cons fresh_view (new-AllSee slots size n h)
    where
      fresh_view : Sees size 0 slots new_reader []
      fresh_view = record {
        holds = record {
          write_in = h;
          read_in = h;
          fits = omega arith;
          ends = omega arith;
          full_flag = ground arith;
          empty_flag = refl;
        };
        contains = tt;
      }

  -- A new buffer with at least one slot stands for empty queues.
  pub new_buffer-Represents :
      (fresh : A) (size n : ℕ) → 0 < size → Represents (new_buffer fresh size n) (replicate n [])
  unfolding new_buffer
  new_buffer-Represents fresh size n h = record {
    room = length-replicate size fresh;
    write_in = h;
    all_see = new-AllSee (replicate size fresh) size n h;
  }

  written-AllSee :
      {size w : ℕ} {slots : List A} {rs : List Reader} {qs : List (List A)} (a : A)
      → length slots ≡ size
      → AllSee size w slots rs qs
      → All (λ q. length q < size) qs
      → AllSee size
          (advance size w)
          (set slots w a)
          (map (written (advance size w)) (map overrun rs))
          (map (λ q. q ++ (a ∷ [])) qs)
  written-AllSee a room nil k = nil
  written-AllSee {size} {w} {slots} a room (cons {r} {q} s ss) k =
      cons (written-Sees size w slots r q a room s k.0) (written-AllSee a room ss k.1)

  -- A write succeeds and appends to every queue, where none has `size` packets.
  pub write_packet-Represents :
      (d : DataBuffer A) (qs : List (List A)) (a : A)
      → Represents d qs
      → All (λ q. length q < d.size) qs
      → (d' : DataBuffer A) × (write_packet d a ≡ ok d')
        × Represents d' (map (λ q. q ++ (a ∷ [])) qs)
        × (d'.size ≡ d.size)
  unfolding write_packet
  write_packet-Represents d qs a v k = (
    record {
      size = d.size;
      slots = set d.slots d.write_ptr a;
      readers = map (written (advance d.size d.write_ptr)) (map overrun d.readers);
      write_ptr = advance d.size d.write_ptr;
      write_cnt = count_up d.write_cnt;
    },
    rw (lt→ltb d.write_ptr d.size v.write_in),
    record {
      room = length-set d.slots d.write_ptr a ∙ v.room;
      write_in = ground (arith, v.write_in);
      all_see = written-AllSee a v.room v.all_see k;
    },
    refl,
  )

  set-AllSee :
      {size w : ℕ} {slots : List A} {rs : List Reader} {qs : List (List A)} (i : ℕ) {r : Reader}
      {q : List A}
      → Sees size w slots r q
      → AllSee size w slots rs qs
      → AllSee size w slots (set rs i r) (set qs i q)
  set-AllSee i s nil = nil
  set-AllSee zero s (cons _ ss) = cons s ss
  set-AllSee (suc i) s (cons s' ss) = cons s' (set-AllSee i s ss)

  -- Index `i` names a reader and its queue, or neither.
  pub data Place (size w : ℕ) (slots : List A) (rs : List Reader) (qs : List (List A)) (i : ℕ)
      : Type ℓ where
    outside : get_elem? rs i ≡ none → get_elem? qs i ≡ none → Place size w slots rs qs i
    inside :
        (r : Reader) (q : List A)
        → get_elem? rs i ≡ some r
        → get_elem? qs i ≡ some q
        → Sees size w slots r q
        → Place size w slots rs qs i

  pub place :
      {size w : ℕ} {slots : List A} {rs : List Reader} {qs : List (List A)} (i : ℕ)
      → AllSee size w slots rs qs
      → Place size w slots rs qs i
  place i nil = outside refl refl
  place zero (cons {r} {q} s ss) = inside r q refl refl s
  place (suc i) (cons s ss) = elim (place i ss) [
    | outside a b ↦ outside a b
    | inside r q a b s' ↦ inside r q a b s'
  ]

  module _ (d : DataBuffer A) (i : ℕ) where
    read_outside : get_elem? d.readers i ≡ none → read_packet d i ≡ (d, throw out_of_range)
    unfolding read_packet
    read_outside e = ground arith

    read_empty :
        (r : Reader)
        → get_elem? d.readers i ≡ some r
        → r.empty ≡ true
        → read_packet d i ≡ (
          record d { readers = set d.readers i (record r { rof_cnt = count_up r.rof_cnt }) },
          throw runtime_error,
        )
    unfolding read_packet
    read_empty r e f = ground arith

    read_oldest :
        (r : Reader) (x : A)
        → get_elem? d.readers i ≡ some r
        → r.empty ≡ false
        → r.read_ptr < d.size
        → get_elem? d.slots r.read_ptr ≡ some x
        → read_packet d i
          ≡ (record d { readers = set d.readers i (consumed d.size d.write_ptr r) }, ok x)
    unfolding read_packet
    read_oldest r x e f lt c = ground arith

  -- A failed read changes a counter only.
  counted-Sees :
      (size w : ℕ) (slots : List A) (r : Reader) (q : List A)
      → Sees size w slots r q
      → Sees size w slots (record r { rof_cnt = count_up r.rof_cnt }) q
  counted-Sees size w slots r q s = record {
    holds = record {
      write_in = s.holds.write_in;
      read_in = s.holds.read_in;
      fits = s.holds.fits;
      ends = s.holds.ends;
      full_flag = s.holds.full_flag;
      empty_flag = s.holds.empty_flag;
    };
    contains = s.contains;
  }

  -- What a read returns and leaves: the oldest packet and the rest, or an exception and the same.
  abbrev pub ReadsAs :
      DataBuffer A → List (List A) → DataBuffer A × Result A → Result A → List (List A) → Type ℓ
  ReadsAs d qs out answer qs' = (out.1 ≡ answer) × Represents out.0 qs' × (out.0.size ≡ d.size)

  read_inside :
      (d : DataBuffer A) (qs : List (List A)) (i : ℕ) (r : Reader) (q : List A)
      → Represents d qs
      → get_elem? d.readers i ≡ some r
      → Sees d.size d.write_ptr d.slots r q
      → ReadsAs d qs (read_packet d i) (dequeue q) (set qs i (tail q))
  read_inside d qs i r [] v e s = rw (read_empty d i r e s.holds.empty_flag) (
    refl,
    record {
      room = v.room;
      write_in = v.write_in;
      all_see = set-AllSee i (counted-Sees d.size d.write_ptr d.slots r [] s) v.all_see;
    },
    refl,
  )
  read_inside d qs i r (x ∷ q) v e s =
      rw (read_oldest d i r x e (ground (arith, s.holds.empty_flag)) s.holds.read_in s.contains.0) (
        refl,
        record {
          room = v.room;
          write_in = v.write_in;
          all_see = set-AllSee i (consumed-Sees d.size d.write_ptr d.slots r x q s) v.all_see;
        },
        refl,
      )

  -- A read answers as the queue of its index and leaves the rest; an index with no reader
  -- throws.
  pub read_packet-Represents :
      (d : DataBuffer A) (qs : List (List A)) (i : ℕ)
      → Represents d qs
      → ReadsAs d qs (read_packet d i) (read_queue qs i) (rest_queues qs i)
  read_packet-Represents d qs i v = elim (place i v.all_see) [
    | outside e f ↦ rw (read_outside d i e, f) (refl, v, refl)
    | inside r q e f s ↦ rw f (read_inside d qs i r q v e s)
  ]

  -- A client's calls in order, with what each read returns; a write that faults ends the run.
  unfoldable pub run : DataBuffer A → List (Op A) → List (Result A)
  run d [] = []
  run d (write a ∷ ops) = elim (write_packet d a) [
    | ok d' ↦ run d' ops
    | throw e ↦ throw e ∷ []
    | fault ↦ fault ∷ []
  ]
  run d (read i ∷ ops) = let (d', out) = read_packet d i in out ∷ run d' ops

  run-write :
      (d d' : DataBuffer A) (a : A) (ops : List (Op A))
      → write_packet d a ≡ ok d'
      → run d (write a ∷ ops) ≡ run d' ops
  unfolding run
  run-write d d' a ops e = ground arith

  -- As long as no reader has the whole ring waiting when a packet is written, no sequence of writes
  -- and reads tells the ring from one first-in-first-out queue for each reader.
  pub run_refines :
      (ops : List (Op A)) (d : DataBuffer A) (qs : List (List A))
      → Represents d qs
      → KeepsUp d.size qs ops
      → run d ops ≡ spec_run qs ops
  unfolding run spec_run
  run_refines [] d qs v k = refl
  run_refines (write a ∷ ops) d qs v k =
      let (d', e, v', same) = write_packet-Represents d qs a v k.0 in
      run-write d d' a ops e ∙ run_refines ops d' (map (λ q. q ++ (a ∷ [])) qs) v' (rw same k.1)
  run_refines (read i ∷ ops) d qs v k =
      let (answers, v', same) = read_packet-Represents d qs i v in
      ap₂ ◌∷◌ answers (run_refines ops (read_packet d i).0 (rest_queues qs i) v' (rw same k))
