-- ===== src/Frame/Laws.antt =====
-- What the buffer holds behind the copy of a frame.
use smurf_processor.Prelude.{
  ℕ, zero, suc, ◌+◌, ◌*◌, ◌≤◌, ◌<◌, ◌≡◌, ◌⊎◌, inl, inr, lt_or_le, refl, sym, ◌∙◌, ap, List, [], ◌∷◌,
  ◌++◌, ok, fault, arith, length, get_or, set, length-append, All, get_or-tabulate_every,
  length-tabulate,
}
use smurf_processor.Prelude.Int.{ℤ, pos, signed, unsigned, IsSigned, signed-IsSigned}
use smurf_processor.Prelude.Bytes.{
  byte_at, IsBytes, word, write, store, store_in, le_bytes, le_bytes-IsBytes, length-le_bytes,
  length-write, write-IsBytes, write_inside, write_outside,
}
use smurf_processor.Frame.{
  RogueFrame, copy_pieces, frame_to_buffer, samples_from, samples_bytes, store_samples,
}

-- The bytes of a frame
abbrev pub joined : List (List ℕ) → List ℕ
joined [] = []
joined (piece ∷ pieces) = piece ++ joined pieces

write-append :
    (xs ys buf : List ℕ) (i : ℕ)
    → write buf i (xs ++ ys) ≡ write (write buf i xs) (i + length xs) ys
unfolding write
write-append [] ys buf i = ap (λ k. write buf k ys) (omega arith)
write-append (x ∷ xs) ys buf i =
    write-append xs ys (set buf i x) (suc i)
    ∙ ap (λ k. write (write (set buf i x) (suc i) xs) k ys) (omega arith)

copied :
    (pieces : List (List ℕ)) (buffer : List ℕ) (dst : ℕ)
    → dst + length (joined pieces) ≤ length buffer
    → copy_pieces pieces buffer dst ≡ ok (write buffer dst (joined pieces))
unfolding copy_pieces write
copied [] buffer dst room = refl
copied (piece ∷ pieces) buffer dst room =
    let split = length-append piece (joined pieces) in
    rw (store_in buffer dst piece (omega (arith, split))) (
      copied pieces (write buffer dst piece) (dst + length piece)
        (omega (arith, split, length-write piece buffer dst))
      ∙ ap ok (sym (write-append piece (joined pieces) buffer dst)))

store_past :
    (buf : List ℕ) (i : ℕ) (bs : List ℕ) → length buf < i + length bs → store buf i bs ≡ fault
unfolding store
store_past buf i bs h = ground arith

not_copied :
    (pieces : List (List ℕ)) (buffer : List ℕ) (dst : ℕ)
    → dst ≤ length buffer
    → length buffer < dst + length (joined pieces)
    → copy_pieces pieces buffer dst ≡ fault
unfolding copy_pieces
not_copied [] buffer dst inside long = absurd (omega arith)
not_copied (piece ∷ pieces) buffer dst inside long =
    elim (lt_or_le (length buffer) (dst + length piece)) [
      | inl over ↦ rw (store_past buffer dst piece over) refl
      | inr fits ↦ rw (store_in buffer dst piece fits) (
          not_copied pieces (write buffer dst piece) (dst + length piece)
            (omega (arith, length-write piece buffer dst))
            (omega (arith, length-write piece buffer dst, length-append piece (joined pieces))))
    ]

-- The copy of a frame that fits into the buffer succeeds: the frame's bytes stand at the start, one piece
-- behind the other, the buffer keeps its size, and what lies behind them is as before. A frame that
-- is too long is written past the buffer's end.
pub frame_to_buffer_lem :
    (frame : RogueFrame) (buffer : List ℕ)
    → (let bytes = joined frame.pieces in
        ((length bytes ≤ length buffer)
          × (buffer' : List ℕ) × (frame_to_buffer frame buffer ≡ ok buffer')
          × (length buffer' ≡ length buffer)
          × ((k : ℕ) → k < length bytes → byte_at buffer' k ≡ byte_at bytes k)
          × ((k : ℕ) → length bytes ≤ k → byte_at buffer' k ≡ byte_at buffer k))
        ⊎ ((length buffer < length bytes) × (frame_to_buffer frame buffer ≡ fault)))
unfolding frame_to_buffer
frame_to_buffer_lem frame buffer =
    let bytes = joined frame.pieces in
    elim (lt_or_le (length buffer) (length bytes)) [
      | inl long ↦ inr (long, not_copied frame.pieces buffer 0 (omega arith) (omega arith))
      | inr room ↦ inl (
        room,
        write buffer 0 bytes,
        copied frame.pieces buffer 0 (omega arith),
        length-write bytes buffer 0,
        λ k lt.
            ap (byte_at (write buffer 0 bytes)) (omega arith)
            ∙ write_inside bytes buffer 0 k (omega arith) lt,
        λ k le. write_outside bytes buffer 0 k (inr (omega arith)),
      )
    ]

pub append-IsBytes : (xs ys : List ℕ) → IsBytes xs → IsBytes ys → IsBytes (xs ++ ys)
append-IsBytes [] ys hx hy j = hy j
append-IsBytes (x ∷ xs) ys hx hy zero = hx 0
append-IsBytes (x ∷ xs) ys hx hy (suc j) = append-IsBytes xs ys (λ k. hx (suc k)) hy j

joined-IsBytes : (pieces : List (List ℕ)) → All IsBytes pieces → IsBytes (joined pieces)
joined-IsBytes [] all j = omega arith
joined-IsBytes (piece ∷ pieces) all j =
    append-IsBytes piece (joined pieces) all.0 (joined-IsBytes pieces all.1) j

-- The copy as the step of the processor uses it
pub frame_to_buffer-IsBytes :
    (frame : RogueFrame) (buffer : List ℕ)
    → All IsBytes frame.pieces
    → length (joined frame.pieces) ≤ length buffer
    → IsBytes buffer
    → (buffer' : List ℕ) × (frame_to_buffer frame buffer ≡ ok buffer')
      × (length buffer' ≡ length buffer)
      × IsBytes buffer'
unfolding frame_to_buffer
frame_to_buffer-IsBytes frame buffer pieces room bytes = (
  write buffer 0 (joined frame.pieces),
  copied frame.pieces buffer 0 (omega arith),
  length-write (joined frame.pieces) buffer 0,
  write-IsBytes (joined frame.pieces) buffer 0 (joined-IsBytes frame.pieces pieces) bytes,
)

pub length-samples_from : (n j : ℕ) (buffer : List ℕ) → length (samples_from n j buffer) ≡ n
unfolding samples_from
length-samples_from n j buffer = length-tabulate n j (λ i. signed 16 (word 2 buffer (128 + 2 * i)))

pub length-samples_bytes : (xs : List ℤ) → length (samples_bytes xs) ≡ 2 * length xs
unfolding samples_bytes
length-samples_bytes [] = refl
length-samples_bytes (x ∷ xs) = omega (
  arith,
  length-append (le_bytes 2 (unsigned 16 x)) (samples_bytes xs),
  length-le_bytes 2 (unsigned 16 x),
  length-samples_bytes xs,
)

samples_bytes-IsBytes : (xs : List ℤ) → IsBytes (samples_bytes xs)
unfolding samples_bytes
samples_bytes-IsBytes [] j = omega arith
samples_bytes-IsBytes (x ∷ xs) j =
    append-IsBytes (le_bytes 2 (unsigned 16 x)) (samples_bytes xs)
      (le_bytes-IsBytes 2 (unsigned 16 x)) (samples_bytes-IsBytes xs) j

-- The samples that fit behind the header are stored, and the buffer stays one of bytes.
pub store_samples-IsBytes :
    (buffer : List ℕ) (xs : List ℤ)
    → 128 + 2 * length xs ≤ length buffer
    → IsBytes buffer
    → (buffer' : List ℕ) × (store_samples buffer xs ≡ ok buffer')
      × (length buffer' ≡ length buffer)
      × IsBytes buffer'
      × ((k : ℕ) → k < 128 → byte_at buffer' k ≡ byte_at buffer k)
unfolding store_samples
store_samples-IsBytes buffer xs room bytes = (
  write buffer 128 (samples_bytes xs),
  store_in buffer 128 (samples_bytes xs) (omega (arith, length-samples_bytes xs)),
  length-write (samples_bytes xs) buffer 128,
  write-IsBytes (samples_bytes xs) buffer 128 (samples_bytes-IsBytes xs) bytes,
  λ k lt. write_outside (samples_bytes xs) buffer 128 k (inl lt),
)

pub samples_from-IsSigned :
    (n j : ℕ) (buffer : List ℕ) (i : ℕ) → IsSigned 16 (get_or (samples_from n j buffer) i (pos 0))
unfolding samples_from
samples_from-IsSigned n j buffer i =
    get_or-tabulate_every (IsSigned 16) n j i (λ k. signed 16 (word 2 buffer (128 + 2 * k))) (pos 0)
      (λ k. signed-IsSigned (word 2 buffer (128 + 2 * k))) (signed-IsSigned 0)
