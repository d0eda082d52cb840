-- ===== src/Packet/Arrays.antt =====
-- Whole packets: made from arrays, copied out, and written to a file.
use smurf_processor.Prelude.{
  ℕ, zero, suc, ◌+◌, ◌*◌, ◌≤◌, ◌<◌, ◌≡◌, refl, sym, ◌∙◌, ap, ap₂, ◌⊎◌, inl, inr, lt_or_le, List, [],
  ◌∷◌, ◌++◌, ok, throw, fault, out_of_range, arith, length, get_or, take, length-take,
  get_or-append_right, get_or-append_left, length-append, take-all, le→leb, lt→leb,
}
use smurf_processor.Prelude.Int.{ℤ, pos, unsigned, unsigned32-lt}
use smurf_processor.Prelude.Bytes.{
  byte_at, IsBytes, word, word_ext, le_bytes, length-le_bytes, word-le_bytes, take-IsBytes,
}
use smurf_processor.Packet.{
  Packet, IsValid, smurf_header_length, smurf_samples, new_packet, copy_header, copy_data,
  from_header, from_arrays, get_header_array, get_data_array, get_packet_length, get_value,
  get_header_byte, words_bytes, write_to_file,
}

length-words_bytes : (xs : List ℤ) → length (words_bytes xs) ≡ 4 * length xs
unfolding words_bytes
length-words_bytes [] = refl
length-words_bytes (x ∷ xs) = omega (
  arith,
  length-append (le_bytes 4 (unsigned 32 x)) (words_bytes xs),
  length-le_bytes 4 (unsigned 32 x),
  length-words_bytes xs,
)

-- The word behind a prefix
word-append_right :
    (n : ℕ) (xs ys : List ℕ) (i : ℕ) → word n (xs ++ ys) (length xs + i) ≡ word n ys i
word-append_right n xs ys i =
    word_ext n (xs ++ ys) ys (length xs + i) i
      λ k lt. ap (byte_at (xs ++ ys)) (omega arith) ∙ get_or-append_right xs ys (i + k) 0

word-append_left :
    (n : ℕ) (xs ys : List ℕ) (i : ℕ) → i + n ≤ length xs → word n (xs ++ ys) i ≡ word n xs i
word-append_left n xs ys i h =
    word_ext n (xs ++ ys) xs i i λ k lt. get_or-append_left xs ys (i + k) 0 (omega arith)

word-words_bytes :
    (xs : List ℤ) (j : ℕ)
    → j < length xs
    → word 4 (words_bytes xs) (4 * j) ≡ unsigned 32 (get_or xs j (pos 0))
unfolding words_bytes
word-words_bytes [] j h = absurd (omega arith)
word-words_bytes (x ∷ xs) zero h =
    let bs = le_bytes 4 (unsigned 32 x) in
    word-append_left 4 bs (words_bytes xs) 0 (omega (arith, length-le_bytes 4 (unsigned 32 x)))
    ∙ word-le_bytes 4 (unsigned 32 x)
    ∙ omega (arith, unsigned32-lt x)
word-words_bytes (x ∷ xs) (suc j) h =
    let bs = le_bytes 4 (unsigned 32 x) in
    ap (word 4 (bs ++ words_bytes xs)) (omega (arith, length-le_bytes 4 (unsigned 32 x)))
    ∙ word-append_right 4 bs (words_bytes xs) (4 * j)
    ∙ word-words_bytes xs j (omega arith)

-- `p` has these bytes for its header and these words for its payload.
pub record IsMadeFrom (p : Packet) (h : List ℕ) (d : List ℤ) : Type 0 where
  pub valid : IsValid p
  pub header : p.header_buffer ≡ take smurf_header_length h
  pub payload : p.payload_buffer ≡ take smurf_samples d

copied-IsValid :
    (h : List ℕ) (d : List ℤ)
    → IsBytes h
    → smurf_header_length ≤ length h
    → smurf_samples ≤ length d
    → IsValid (record new_packet {
      header_buffer = take smurf_header_length h;
      payload_buffer = take smurf_samples d;
    })
unfolding new_packet
copied-IsValid h d bytes hh hd = record {
  header_fixed = refl;
  payload_fixed = refl;
  packet_fixed = refl;
  header_room = length-take smurf_header_length h hh;
  payload_room = length-take smurf_samples d hd;
  bytes = take-IsBytes smurf_header_length h bytes;
}

abbrev made : List ℕ → List ℤ → Packet
made h d = record new_packet {
  header_buffer = take smurf_header_length h;
  payload_buffer = take smurf_samples d;
}

runs :
    (h : List ℕ) (d : List ℤ)
    → smurf_header_length ≤ length h
    → smurf_samples ≤ length d
    → from_arrays h d ≡ ok (made h d)
unfolding from_arrays from_header copy_header copy_data new_packet
runs h d hh hd = rw (le→leb 128 (length h) hh, le→leb 528 (length d) hd)

short_header : (h : List ℕ) (d : List ℤ) → length h < smurf_header_length → from_arrays h d ≡ fault
unfolding from_arrays from_header copy_header new_packet
short_header h d hh = rw (lt→leb 128 (length h) hh)

short_payload :
    (h : List ℕ) (d : List ℤ)
    → smurf_header_length ≤ length h
    → length d < smurf_samples
    → from_arrays h d ≡ fault
unfolding from_arrays from_header copy_header copy_data new_packet
short_payload h d hh hd = rw (le→leb 128 (length h) hh, lt→leb 528 (length d) hd)

header_back :
    (h : List ℕ) (d : List ℤ)
    → smurf_header_length ≤ length h
    → get_header_array (made h d) ≡ take smurf_header_length h
unfolding get_header_array new_packet
header_back h d hh =
    take-all smurf_header_length (take smurf_header_length h) (length-take smurf_header_length h hh)

data_back :
    (h : List ℕ) (d : List ℤ)
    → smurf_samples ≤ length d
    → get_data_array (made h d) ≡ take smurf_samples d
unfolding get_data_array new_packet
data_back h d hd = take-all smurf_samples (take smurf_samples d) (length-take smurf_samples d hd)

-- From an array of at least 128 bytes and one of at least 528 words the constructor makes a valid
-- packet of their first 128 bytes and 528 words, which `getHeaderArray` and `getDataArray` copy out again;
-- a shorter array is read past its end.
pub from_arrays_lem :
    (h : List ℕ) (d : List ℤ)
    → IsBytes h
    → (smurf_header_length ≤ length h
        → smurf_samples ≤ length d
        → (p : Packet) × (from_arrays h d ≡ ok p)
          × IsMadeFrom p h d
          × (get_header_array p ≡ take smurf_header_length h)
          × (get_data_array p ≡ take smurf_samples d))
      × ((length h < smurf_header_length) ⊎ (length d < smurf_samples) → from_arrays h d ≡ fault)
from_arrays_lem h d bytes = (
  λ hh hd. (
    made h d,
    runs h d hh hd,
    record { valid = copied-IsValid h d bytes hh hd; header = refl; payload = refl },
    header_back h d hh,
    data_back h d hd,
  ),
  λ short. elim (lt_or_le (length h) smurf_header_length) [
    | inl hh ↦ short_header h d hh
    | inr hh ↦ short_payload h d hh (omega arith)
  ],
)

-- What `writeToFile` writes of a valid packet is as long as `getPacketLength` says: the header's bytes
-- first, and behind them each payload word in four bytes, low byte first.
pub write_to_file_lem :
    (p : Packet)
    → IsValid p
    → (length (write_to_file p) ≡ get_packet_length p)
      × ((k : ℕ)
          → k < smurf_header_length
          → byte_at (write_to_file p) k ≡ byte_at p.header_buffer k)
      × ((j : ℕ)
          → j < smurf_samples
          → word 4 (write_to_file p) (smurf_header_length + 4 * j)
            ≡ unsigned 32 (get_or p.payload_buffer j (pos 0)))
unfolding get_packet_length
write_to_file_lem p v = rw whole (
  omega (
    arith,
    length-append p.header_buffer (words_bytes p.payload_buffer),
    length-words_bytes p.payload_buffer,
    h,
    d,
    v.packet_fixed,
  ),
  λ k lt. get_or-append_left p.header_buffer (words_bytes p.payload_buffer) k 0 (omega (arith, h)),
  λ j lt.
      ap (λ n. word 4 (p.header_buffer ++ words_bytes p.payload_buffer) (n + 4 * j)) (sym h)
      ∙ word-append_right 4 p.header_buffer (words_bytes p.payload_buffer) (4 * j)
      ∙ word-words_bytes p.payload_buffer j (omega (arith, d)),
)
  where
    h : length p.header_buffer ≡ smurf_header_length
    h = v.header_room ∙ v.header_fixed

    d : length p.payload_buffer ≡ smurf_samples
    d = v.payload_room ∙ v.payload_fixed

    whole : write_to_file p ≡ p.header_buffer ++ words_bytes p.payload_buffer
    whole =
        unfold write_to_file in
        ap₂ (λ a b. a ++ words_bytes b) (take-all p.header_length p.header_buffer v.header_room)
          (take-all p.payload_length p.payload_buffer v.payload_room)

-- On a valid packet `getValue` and `getHeaderByte` throw the range error exactly at an index that is
-- not below 528 and 128, and otherwise return what the buffer holds there.
pub at_lem :
    (p : Packet) (i : ℕ)
    → IsValid p
    → ((i < smurf_samples → get_value p i ≡ ok (get_or p.payload_buffer i (pos 0)))
        × (smurf_samples ≤ i → get_value p i ≡ throw out_of_range))
      × ((i < smurf_header_length → get_header_byte p i ≡ ok (byte_at p.header_buffer i))
          × (smurf_header_length ≤ i → get_header_byte p i ≡ throw out_of_range))
unfolding get_value get_header_byte
at_lem p i v =
    let n : length p.payload_buffer ≡ 528 = v.payload_room ∙ v.payload_fixed in
    let m : length p.header_buffer ≡ 128 = v.header_room ∙ v.header_fixed in
    (
      (λ h. ground (arith, n), λ h. ground (arith, n)),
      (λ h. ground (arith, m), λ h. ground (arith, m)),
    )
