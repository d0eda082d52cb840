-- ===== src/DataBuffer/Overrun.antt =====
-- Writing to the ring while a reader has all of it waiting.
use smurf_processor.Prelude.{
  ℕ, zero, suc, ◌+◌, ◌-◌, ◌*◌, ◌≤◌, ◌<◌, ◌≡◌, refl, ◌∙◌, ◌⊎◌, ◌==◌, leb, true, false, some, List,
  [], ◌∷◌, map, Result, ok, fault, ◌>>=◌, arith, length, get_elem?, get_or, set, length-set,
  length-map, replicate, length-replicate, All, lt→ltb, lt_or_le, inl, inr, All-get_or,
  get_elem?-eq-get_or,
}
use smurf_processor.DataBuffer.{
  Reader, DataBuffer, new_reader, advance, overrun, written, count_up, new_buffer, write_packet,
  read_packet,
}
use smurf_processor.DataBuffer.Spec.{enqueue}
use smurf_processor.DataBuffer.View.{Sees, written-Sees, overwritten-Sees}
use smurf_processor.DataBuffer.Refine.{AllSee, nil, cons, Represents}

-- The reader has room, or stands before the last slot.
abbrev pub HasWay {ℓ} : {A : Type ℓ} → ℕ → Reader → List A → Type 0
HasWay size r q = (length q < size) ⊎ (r.read_ptr + 1 < size)

module _ {ℓ} {A : Type ℓ} where
  abbrev pub AllHaveWay : ℕ → List Reader → List (List A) → Type 0
  AllHaveWay size [] qs = Unit
  AllHaveWay size (r ∷ rs) [] = Unit
  AllHaveWay size (r ∷ rs) (q ∷ qs) = HasWay size r q × AllHaveWay size rs qs

  enqueue-Sees :
      (size w : ℕ) (slots : List A) (r : Reader) (q : List A) (a : A)
      → length slots ≡ size
      → Sees size w slots r q
      → HasWay size r q
      → Sees size
          (advance size w)
          (set slots w a)
          (written (advance size w) (overrun r))
          (enqueue size a q)
  enqueue-Sees size w slots r [] a room s way =
      let h : (0 == size) ≡ false = ground (arith, s.holds.write_in) in
      rw h (written-Sees size w slots r [] a room s (omega (arith, s.holds.write_in)))
  enqueue-Sees size w slots r (x ∷ q) a room s way = elim (lt_or_le (suc (length q)) size) [
    | inl small ↦
        let h : (suc (length q) == size) ≡ false = ground arith in
        rw h (written-Sees size w slots r (x ∷ q) a room s small)
    | inr big ↦
        let e : suc (length q) ≡ size = omega (arith, s.holds.fits) in
        let h : (suc (length q) == size) ≡ true = ground arith in
        rw h (overwritten-Sees size w slots r x q a room s e (omega arith))
  ]

  enqueue-AllSee :
      {size w : ℕ} {slots : List A} {rs : List Reader} {qs : List (List A)} (a : A)
      → length slots ≡ size
      → AllSee size w slots rs qs
      → AllHaveWay size rs qs
      → AllSee size
          (advance size w)
          (set slots w a)
          (map (written (advance size w)) (map overrun rs))
          (map (enqueue size a) qs)
  enqueue-AllSee a room nil k = nil
  enqueue-AllSee {size} {w} {slots} a room (cons {r} {q} s ss) k =
      cons (enqueue-Sees size w slots r q a room s k.0) (enqueue-AllSee a room ss k.1)

  -- A write onto readers that have the whole ring waiting drops the oldest packet of each of them
  -- and appends to every queue, as long as no such reader stands at the last slot.
  pub write_packet-enqueue :
      (d : DataBuffer A) (qs : List (List A)) (a : A)
      → Represents d qs
      → AllHaveWay d.size d.readers qs
      → (d' : DataBuffer A) × (write_packet d a ≡ ok d') × Represents d' (map (enqueue d.size a) qs)
  unfolding write_packet
  write_packet-enqueue d qs a v k = (
    record {
      size = d.size;
      slots = set d.slots d.write_ptr a;
      readers = map (written (advance d.size d.write_ptr)) (map overrun d.readers);
      write_ptr = advance d.size d.write_ptr;
      write_cnt = count_up d.write_cnt;
    },
    rw (lt→ltb d.write_ptr d.size v.write_in),
    record {
      room = length-set d.slots d.write_ptr a ∙ v.room;
      write_in = ground (arith, v.write_in);
      all_see = enqueue-AllSee a v.room v.all_see k;
    },
  )

  -- Packets written in turn
  pub write_all : DataBuffer A → List A → Result (DataBuffer A)
  write_all d [] = ok d
  write_all d (a ∷ packets) = write_packet d a >>= λ d'. write_all d' packets

-- A reader after `k` writes and no read
abbrev Behind : ℕ → ℕ → Reader → Type 0
Behind size k r = (r.read_ptr ≡ k - size) × (r.full ≡ leb size k) × (r.empty ≡ (k == 0))

written-Behind :
    (size k w : ℕ) (r : Reader)
    → w < size
    → (size ≤ k) ⊎ (w ≡ k)
    → Behind size k r
    → Behind size (suc k) (written (advance size w) (overrun r))
written-Behind size k w r h first b = elim (lt_or_le k size) [
  | inl small ↦
      let kept : overrun r ≡ r = ground (arith, b.1) in
      rw kept (omega (arith, b.0), ground (arith, b), ground arith)
  | inr big ↦ let full : r.full ≡ true = ground (arith, b.1) in ground (arith, b)
]

All-Behind :
    (size k w : ℕ) (rs : List Reader)
    → w < size
    → (size ≤ k) ⊎ (w ≡ k)
    → All (Behind size k) rs
    → All (Behind size (suc k)) (map (written (advance size w)) (map overrun rs))
All-Behind size k w [] h first b = tt
All-Behind size k w (r ∷ rs) h first b =
    (written-Behind size k w r h first b.0, All-Behind size k w rs h first b.1)

All-Behind_new : (size n : ℕ) → 0 < size → All (Behind size 0) (replicate n new_reader)
All-Behind_new size zero h = tt
All-Behind_new size (suc n) h = ((omega arith, ground arith, refl), All-Behind_new size n h)

module _ {ℓ} {A : Type ℓ} where
  -- The ring after `k` writes and no read
  record Unread (size n k : ℕ) (d : DataBuffer A) : Type ℓ where
    same_size : d.size ≡ size
    same_readers : length d.readers ≡ n
    write_in : d.write_ptr < size
    first_round : (size ≤ k) ⊎ (d.write_ptr ≡ k)
    all_behind : All (Behind size k) d.readers

  write-Unread :
      (size n k : ℕ) (d : DataBuffer A) (a : A)
      → Unread size n k d
      → (d' : DataBuffer A) × (write_packet d a ≡ ok d') × Unread size n (suc k) d'
  unfolding write_packet
  write-Unread size n k d a u = (
    record {
      size = d.size;
      slots = set d.slots d.write_ptr a;
      readers = map (written (advance d.size d.write_ptr)) (map overrun d.readers);
      write_ptr = advance d.size d.write_ptr;
      write_cnt = count_up d.write_cnt;
    },
    rw (lt→ltb d.write_ptr d.size (omega (arith, u.write_in, u.same_size))),
    record {
      same_size = u.same_size;
      same_readers =
          length-map (written (advance d.size d.write_ptr)) (map overrun d.readers)
          ∙ length-map overrun d.readers
          ∙ u.same_readers;
      write_in = ground (arith, u.write_in, u.same_size);
      first_round = ground (arith, u.write_in, u.same_size, u.first_round);
      all_behind =
          rw u.same_size
            (All-Behind size k d.write_ptr d.readers u.write_in u.first_round u.all_behind);
    },
  )

  write_all-Unread :
      (size n k : ℕ) (d : DataBuffer A) (packets : List A)
      → Unread size n k d
      → (d' : DataBuffer A) × (write_all d packets ≡ ok d') × Unread size n (k + length packets) d'
  unfolding write_all
  write_all-Unread size n k d [] u = let e : k + 0 ≡ k = omega arith in (d, refl, rw e u)
  write_all-Unread size n k d (a ∷ packets) u =
      let (d₁, e₁, u₁) = write-Unread size n k d a u in
      let (d₂, e₂, u₂) = write_all-Unread size n (suc k) d₁ packets u₁ in
      let e : k + suc (length packets) ≡ suc k + length packets = omega arith in
      (d₂, rw (e₁, e₂), rw e u₂)

  new-Unread : (fresh : A) (size n : ℕ) → 0 < size → Unread size n 0 (new_buffer fresh size n)
  unfolding new_buffer
  new-Unread fresh size n h = record {
    same_size = refl;
    same_readers = length-replicate n new_reader;
    write_in = h;
    first_round = omega arith;
    all_behind = All-Behind_new size n h;
  }

  past_the_end :
      (d : DataBuffer A) (i : ℕ) (r : Reader)
      → get_elem? d.readers i ≡ some r
      → r.empty ≡ false
      → d.size ≤ r.read_ptr
      → (read_packet d i).1 ≡ fault
  unfolding read_packet
  past_the_end d i r e f h = ground arith

  -- In a new ring with a slot or more, once twice as many packets as there are slots are written
  -- before a reader reads, the writes succeed, but the reader's iterator has gone past the end of the
  -- ring and every reader's next read is undefined.
  pub overrun_faults :
      (fresh : A) (size n i : ℕ) (packets : List A)
      → 0 < size
      → i < n
      → 2 * size ≤ length packets
      → (d : DataBuffer A) × (write_all (new_buffer fresh size n) packets ≡ ok d)
        × ((read_packet d i).1 ≡ fault)
  overrun_faults fresh size n i packets h lt many =
      let (d, e, u) =
        write_all-Unread size n 0 (new_buffer fresh size n) packets (new-Unread fresh size n h) in
      let r : Reader = get_or d.readers i new_reader in
      let b : Behind size (0 + length packets) r =
        All-get_or (Behind size (0 + length packets)) d.readers i new_reader u.all_behind
          (omega (arith, u.same_readers)) in
      (
        d,
        e,
        past_the_end d i r
            (get_elem?-eq-get_or d.readers i new_reader (omega (arith, u.same_readers)))
            (ground (arith, b)) (omega (arith, b.0, u.same_size)),
      )
