-- ===== src/Threads/Delivery.antt =====
-- What the readers' threads pass on of the packets that are written.
use smurf_processor.Prelude.{
  eq_of_test, ne_of_test, ℕ, zero, suc, ◌<◌, ◌≡◌, refl, sym, ◌∙◌, ap, inl, inr, ◌==◌, if◌then◌else◌,
  Bool-cases, true, false, List, [], ◌∷◌, ◌++◌, append_assoc, append-nil, map, Option, none, some,
  ok, arith, length, length-map, get_elem?, get_elem?-map, set, length-set, get_elem?-set_self,
  get_elem?-set_ne, replicate,
}
use smurf_processor.DataBuffer.{DataBuffer, is_empty, read_packet}
use smurf_processor.DataBuffer.Spec.{Op, write, read, KeepsUp, rest_queues, tail}
use smurf_processor.DataBuffer.Refine.{Represents, write_packet-Represents, read_packet-Represents}
use smurf_processor.DataBuffer.Empty.{none-some, some-injective, is_empty-Represents}
use smurf_processor.Threads.{transmitter_turn, logged, run_threads}

module _ {ℓ} {A : Type ℓ} where
  -- What the log says of one reader, and the packets written
  abbrev pub taken : ℕ → List (ℕ × A) → List A
  taken i [] = []
  taken i ((j, a) ∷ log) = if i == j then a ∷ taken i log else taken i log

  abbrev pub writes : List (Op A) → List A
  writes [] = []
  writes (write a ∷ ops) = a ∷ writes ops
  writes (read i ∷ ops) = writes ops

  -- Every turn is one of the `n` readers'.
  abbrev pub Served : ℕ → List (Op A) → Type 0
  Served n [] = Unit
  Served n (write a ∷ ops) = Served n ops
  Served n (read i ∷ ops) = (i < n) × Served n ops

  pub turn_waits :
      (d : DataBuffer A) (qs : List (List A)) (i : ℕ)
      → Represents d qs
      → get_elem? qs i ≡ some []
      → transmitter_turn d i ≡ ok (d, none)
  unfolding transmitter_turn
  turn_waits d qs i v e = rw (is_empty-Represents d qs i [] v e) refl

  pub turn_passes :
      (d : DataBuffer A) (qs : List (List A)) (i : ℕ) (x : A) (q : List A)
      → Represents d qs
      → get_elem? qs i ≡ some (x ∷ q)
      → (d' : DataBuffer A) × (transmitter_turn d i ≡ ok (d', some x))
        × Represents d' (set qs i q)
        × (d'.size ≡ d.size)
  unfolding transmitter_turn
  turn_passes d qs i x q v e =
      let (answered, v', same) = read_packet-Represents d qs i v in
      let some_left : (suc (length q) == 0) ≡ false = ground arith in
      let out : (read_packet d i).1 ≡ ok x = answered ∙ rw e refl in
      (
        (read_packet d i).0,
        rw (is_empty-Represents d qs i (x ∷ q) v e, some_left, out) refl,
        (rw e at v'),
        same,
      )

  set_same : (qs : List (List A)) (i : ℕ) (q : List A) → get_elem? qs i ≡ some q → set qs i q ≡ qs
  set_same [] i q e = refl
  set_same (x ∷ qs) zero q e = ap (λ y. y ∷ qs) (sym (some-injective e))
  set_same (x ∷ qs) (suc i) q e = ap (λ ys. x ∷ ys) (set_same qs i q e)

  present : (qs : List (List A)) (i : ℕ) → i < length qs → (q : List A) × (get_elem? qs i ≡ some q)
  present [] i h = absurd (omega arith)
  present (q ∷ qs) zero h = (q, refl)
  present (q ∷ qs) (suc i) h = present qs i (omega arith)

  -- Each reader's packets passed on and waiting are those that waited and were written.
  abbrev pub Delivered : (qs qs' : List (List A)) (ops : List (Op A)) (log : List (ℕ × A)) → Type ℓ
  Delivered qs qs' ops log =
      (i : ℕ) (q : List A)
      → get_elem? qs i ≡ some q
      → (q' : List A) × (get_elem? qs' i ≡ some q') × (taken i log ++ q' ≡ q ++ writes ops)

  passed_on :
      (qs qs' : List (List A)) (ops : List (Op A)) (log : List (ℕ × A)) (j : ℕ) (x : A)
      (q₀ : List A)
      → get_elem? qs j ≡ some (x ∷ q₀)
      → j < length qs
      → Delivered (set qs j q₀) qs' ops log
      → Delivered qs qs' ops ((j, x) ∷ log)
  passed_on qs qs' ops log j x q₀ e lt rest i q ei = elim (Bool-cases (i == j)) [
    | inl same ↦
        let at : i ≡ j = eq_of_test i j same in
        let whole : x ∷ q₀ ≡ q = some-injective (sym e ∙ ap (get_elem? qs) (sym at) ∙ ei) in
        let (q', e', sum) =
          rest i q₀ (ap (get_elem? (set qs j q₀)) at ∙ get_elem?-set_self qs j q₀ lt) in
        (q', e', rw same (ap (λ ys. x ∷ ys) sum ∙ ap (λ ys. ys ++ writes ops) whole))
    | inr other ↦
        let (q', e', sum) =
          rest i q (get_elem?-set_ne qs j i q₀ (λ h. ne_of_test i j other (sym h)) ∙ ei) in
        (q', e', rw other sum)
  ]

  length-rest_queues :
      (qs : List (List A)) (j : ℕ) (q : List A)
      → get_elem? qs j ≡ some q
      → length (rest_queues qs j) ≡ length qs
  length-rest_queues qs j q e = rw e (length-set qs j (tail q))

  -- One turn, with what it adds to the log
  turn_step :
      (d : DataBuffer A) (qs : List (List A)) (j : ℕ) (q : List A)
      → Represents d qs
      → get_elem? qs j ≡ some q
      → j < length qs
      → (d' : DataBuffer A) × (out : Option A) × (transmitter_turn d j ≡ ok (d', out))
        × Represents d' (rest_queues qs j)
        × (d'.size ≡ d.size)
        × ((qs' : List (List A)) (ops : List (Op A)) (log : List (ℕ × A))
            → Delivered (rest_queues qs j) qs' ops log
            → Delivered qs qs' ops (logged j out log))
  turn_step d qs j [] v e lt =
      let unchanged : rest_queues qs j ≡ qs = rw e (set_same qs j [] e) in
      (
        d,
        none,
        turn_waits d qs j v e,
        rw unchanged v,
        refl,
        λ qs' ops log all. (rw unchanged at all),
      )
  turn_step d qs j (x ∷ q) v e lt =
      let left : rest_queues qs j ≡ set qs j q = rw e refl in
      let (d', e', v', same) = turn_passes d qs j x q v e in
      (
        d',
        some x,
        e',
        rw left v',
        same,
        λ qs' ops log all. passed_on qs qs' ops log j x q e lt (rw left at all),
      )

  -- The readers' threads and the writer in any order, where no reader has the whole ring waiting when a packet is
  -- written: the run gives no error, and for each reader the packets that its thread passed on, followed by
  -- those that wait for it at the end, are those that waited at the start, followed by all that
  -- were written. None is lost, doubled or out of order.
  pub run_threads-Delivered :
      (ops : List (Op A)) (d : DataBuffer A) (qs : List (List A))
      → Represents d qs
      → KeepsUp d.size qs ops
      → Served (length qs) ops
      → (d' : DataBuffer A) × (log : List (ℕ × A)) × (qs' : List (List A)) × (run_threads d ops
          ≡ ok (d', log))
        × Represents d' qs'
        × Delivered qs qs' ops log
  unfolding run_threads
  run_threads-Delivered [] d qs v k served =
      (d, [], qs, refl, v, λ i q e. (q, e, sym (append-nil q)))
  run_threads-Delivered (write a ∷ ops) d qs v k served =
      let (d₁, e₁, v₁, same) = write_packet-Represents d qs a v k.0 in
      let grown = map (λ q. q ++ (a ∷ [])) qs in
      let (d', log, qs', e, v', all) =
        run_threads-Delivered ops d₁ grown v₁ (rw same k.1)
          (rw (length-map (λ q. q ++ (a ∷ [])) qs) served) in
      (
        d',
        log,
        qs',
        rw (e₁, e) refl,
        v',
        λ i q ei.
            let (q', e', sum) =
              all i (q ++ (a ∷ [])) (get_elem?-map (λ q. q ++ (a ∷ [])) qs i q ei) in
            (q', e', sum ∙ append_assoc q (a ∷ []) (writes ops)),
      )
  run_threads-Delivered (read j ∷ ops) d qs v k served =
      let (q, ej) = present qs j served.0 in
      let (d₁, out, e₁, v₁, same, pass) = turn_step d qs j q v ej served.0 in
      let (d', log, qs', e, v', all) =
        run_threads-Delivered ops d₁ (rest_queues qs j) v₁ (rw same k)
          (rw (length-rest_queues qs j q ej) served.1) in
      (d', logged j out log, qs', rw (e₁, e) refl, v', pass qs' ops log all)

  pub in_range : (qs : List (List A)) (i : ℕ) (q : List A) → get_elem? qs i ≡ some q → i < length qs
  in_range [] i q e = absurd (none-some e)
  in_range (x ∷ qs) zero q e = omega arith
  in_range (x ∷ qs) (suc i) q e = omega (arith, in_range qs i q e)

  -- A reader's thread that has its turns, as many as packets wait for the reader, passes on all of them, in
  -- order, and nothing waits for the reader any more.
  pub run_threads-is_empty :
      (q : List A) (d : DataBuffer A) (qs : List (List A)) (i : ℕ)
      → Represents d qs
      → get_elem? qs i ≡ some q
      → (d' : DataBuffer A) × (qs' : List (List A)) × (run_threads d (replicate (length q) (read i))
          ≡ ok (d', map (λ a. (i, a)) q))
        × Represents d' qs'
        × (is_empty d' i ≡ ok true)
  unfolding run_threads
  run_threads-is_empty [] d qs i v e = (d, qs, refl, v, is_empty-Represents d qs i [] v e)
  run_threads-is_empty (x ∷ q) d qs i v e =
      let (d₁, e₁, v₁, same) = turn_passes d qs i x q v e in
      let (d', qs', e', v', empty) =
        run_threads-is_empty q d₁ (set qs i q) i v₁
          (get_elem?-set_self qs i q (in_range qs i (x ∷ q) e)) in
      (d', qs', rw (e₁, e') refl, v', empty)
