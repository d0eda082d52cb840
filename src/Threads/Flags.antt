-- ===== src/Threads/Flags.antt =====
-- The two flags of a reader when the parts of `doneWriting` and `doneReading` mix.
use smurf_processor.Prelude.{
  set-set, ℕ, ◌≡◌, refl, ap, inl, inr, ◌==◌, Bool, false, some, List, [], ◌∷◌, map, ok, ◌>>=◌,
  get_elem?, set,
}
use smurf_processor.DataBuffer.{
  Reader, DataBuffer, advance, count_up, written, done_writing, done_reading,
}
use smurf_processor.Threads.Placed.{set_found, Option-cases}
use smurf_processor.Threads.Parts.{
  Flow, marked_full, with_empty, moved, marked_empty, without_full, counted, at_reader, compared,
  act, act_all, writing_parts, reading_parts,
}

map-written :
    (w : ℕ) (rs : List Reader)
    → map (with_empty false) (map (marked_full w) rs) ≡ map (written w) rs
map-written w [] = refl
map-written w (r ∷ rs) = ap (λ ys. written w r ∷ ys) (map-written w rs)

module _ {ℓ} {A : Type ℓ} where
  -- The parts one behind the other are the call, errors included.
  act_all-done_writing :
      (i : ℕ) (d : DataBuffer A) (matched : Bool)
      → act_all i writing_parts (record { ring = d; matched = matched })
        ≡ ok (record { ring = done_writing d; matched = matched })
  unfolding act_all act done_writing
  act_all-done_writing i d matched =
      let w = advance d.size d.write_ptr in
      ap
        (λ rs. ok (record {
          ring = record d { write_ptr = w; readers = rs; write_cnt = count_up d.write_cnt };
          matched = matched;
        }))
        (map-written w d.readers)

  abbrev with_reader : Flow A → ℕ → Reader → Flow A
  with_reader f i r = record f { ring = record f.ring { readers = set f.ring.readers i r } }

  at_reader-found :
      (change : Reader → Reader) (f : Flow A) (i : ℕ) (r : Reader)
      → get_elem? f.ring.readers i ≡ some r
      → at_reader change i f ≡ ok (with_reader f i (change r))
  at_reader-found change f i r e = rw (at_reader, e) refl

  at_reader-again :
      (change : Reader → Reader) (f : Flow A) (i : ℕ) (r r₀ : Reader)
      → get_elem? f.ring.readers i ≡ some r₀
      → at_reader change i (with_reader f i r) ≡ ok (with_reader f i (change r))
  at_reader-again change f i r r₀ e =
      rw (at_reader, set_found f.ring.readers i r₀ r e, set-set f.ring.readers i r (change r)) refl

  act_all-done_reading :
      (i : ℕ) (d : DataBuffer A) (matched : Bool)
      → (act_all i reading_parts (record { ring = d; matched = matched }) >>= λ f. ok f.ring)
        ≡ done_reading d i
  unfolding act_all act done_reading
  act_all-done_reading i d matched =
      let f : Flow A = record { ring = d; matched = matched } in
      elim (Option-cases (get_elem? d.readers i)) [
        | inl e ↦ rw (act_all, act, at_reader, done_reading, e) refl
        | inr (r, e) ↦
            let r₁ = moved d.size r in
            let g : Flow A = record { ring = d; matched = r₁.read_ptr == d.write_ptr } in
            let r₂ = marked_empty (r₁.read_ptr == d.write_ptr) r₁ in
            rw
              (
                act_all,
                act,
                at_reader-found (moved d.size) f i r e,
                compared,
                set_found d.readers i r r₁ e,
                at_reader-again (marked_empty (r₁.read_ptr == d.write_ptr)) g i r₁ r e,
                at_reader-again without_full g i r₂ r e,
                at_reader-again counted g i (without_full r₂) r e,
                done_reading,
                e,
              )
              refl
      ]
