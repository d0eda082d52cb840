-- ===== src/TesBias/Laws.antt =====
-- `setWord` against `getWord`: sixteen independent signed 20-bit cells.
use smurf_processor.Prelude.{
  ℕ, ◌+◌, ◌*◌, ◌/◌, ◌%◌, ◌^◌, ◌≤◌, ◌<◌, ◌≡◌, ◌≢◌, ◌⊎◌, List, ok, throw, fault, ◌>>=◌, arith, length,
  runtime_error, inl, inr, ◌↔◌, lt_or_le,
}
use smurf_processor.Prelude.Int.{ℤ, pos, negsuc, sign_of, unsigned, IsSigned}
use smurf_processor.Prelude.Bytes.{byte_at, IsBytes, load}
use smurf_processor.TesBias.{set_word, get_word, tes_bias_buffer_size}
use smurf_processor.TesBias.Layout.{field, start, set_first_lem, set_second_lem, get_word_lem}

-- What `setWord` at index `i` does to the buffer: its own twenty bits and no others.
pub record Stored (buf buf' : List ℕ) (p i v : ℕ) : Type 0 where
  pub same_length : length buf' ≡ length buf
  pub bytes : IsBytes buf'
  pub own : field buf' p i ≡ v % 2 ^ 20
  pub kept : (j : ℕ) → j ≢ i → field buf' p j ≡ field buf p j
  pub outside : (k : ℕ) → (k < start p i) ⊎ (start p i + 3 ≤ k) → byte_at buf' k ≡ byte_at buf k

module _ (buf : List ℕ) (p i : ℕ) (value : ℤ) (lt : i < 16) (h : IsBytes buf)
    (room : start p i + 3 ≤ length buf) where
  first_Stored :
      i % 2 ≡ 0
      → (buf' : List ℕ) × (set_word buf p i value ≡ ok buf')
        × Stored buf buf' p i (unsigned 32 value)
  unfolding set_word start field
  first_Stored e =
      let b = p + 5 * (i / 2) in
      let (buf', runs, w) = set_first_lem buf b (unsigned 32 value) (ground arith) h in
      (
        buf',
        ground (arith, runs),
        record {
          same_length = w.same_length;
          bytes = w.bytes h;
          own = ground (arith, w.first, w.second, w.third);
          kept = λ j ne. ground (
            arith,
            w.third,
            w.others (p + 5 * (j / 2)),
            w.others (p + 5 * (j / 2) + 1),
            w.others (p + 5 * (j / 2) + 2),
            w.others (p + 5 * (j / 2) + 3),
            w.others (p + 5 * (j / 2) + 4),
            h (b + 2),
          );
          outside = λ k o. ground (arith, w.others k);
        },
      )

  second_Stored :
      i % 2 ≡ 1
      → (buf' : List ℕ) × (set_word buf p i value ≡ ok buf')
        × Stored buf buf' p i (unsigned 32 value)
  unfolding set_word start field
  second_Stored e =
      let b = p + 5 * (i / 2) + 2 in
      let v = unsigned 32 value * 2 ^ 4 % 2 ^ 32 in
      let (buf', runs, w) = set_second_lem buf b v (ground arith) h in
      (
        buf',
        ground (arith, runs),
        record {
          same_length = w.same_length;
          bytes = w.bytes h;
          own = ground (arith, w.first, w.second, w.third, h b);
          kept = λ j ne. ground (
            arith,
            w.first,
            w.others (p + 5 * (j / 2)),
            w.others (p + 5 * (j / 2) + 1),
            w.others (p + 5 * (j / 2) + 2),
            w.others (p + 5 * (j / 2) + 3),
            w.others (p + 5 * (j / 2) + 4),
            h b,
          );
          outside = λ k o. ground (arith, w.others k);
        },
      )

  -- A write to an index in range succeeds, stores the low twenty bits of the value in the cell of that
  -- index, changes no other cell and no byte outside of the cell's three, and leaves bytes.
  pub set_word-Stored :
      (buf' : List ℕ) × (set_word buf p i value ≡ ok buf') × Stored buf buf' p i (unsigned 32 value)
  set_word-Stored = elim (parity i) [ inl e ↦ first_Stored e | inr e ↦ second_Stored e ]
    where
      parity : (n : ℕ) → (n % 2 ≡ 0) ⊎ (n % 2 ≡ 1)
      parity n = grind arith

-- A 20-bit value survives the cut to 20 bits and the sign extension.
signed_fits : (z : ℤ) → IsSigned 20 z → sign_of 20 (unsigned 32 z % 2 ^ 20) ≡ z
signed_fits (pos n) s = ground (arith, s.below)
signed_fits (negsuc n) s = ground (arith, s.above)

module _ (buf : List ℕ) (p i : ℕ) (value : ℤ) (lt : i < 16) (h : IsBytes buf)
    (room : p + 41 ≤ length buf) where
  within_start : (j : ℕ) → j < 16 → start p j + 4 ≤ length buf
  unfolding start
  within_start j jt = ground arith

  -- In a buffer that holds the forty bytes at `p` and one more, a value of 20 bits that `setWord`
  -- wrote at an index in range is what `getWord` reads there, with its sign.
  pub get_word-set_word :
      IsSigned 20 value → (set_word buf p i value >>= λ buf'. get_word buf' p i) ≡ ok value
  get_word-set_word s =
      let (buf', runs, st) = set_word-Stored buf p i value lt h (omega (arith, within_start i)) in
      rw (
        runs,
        get_word_lem buf' p i lt st.bytes (omega (arith, within_start i, st.same_length)),
        st.own,
        signed_fits value s,
      )

  -- Under the same conditions no other index reads anything else than before.
  pub get_word-set_word_ne :
      (j : ℕ)
      → j < 16
      → j ≢ i
      → (set_word buf p i value >>= λ buf'. get_word buf' p j) ≡ get_word buf p j
  get_word-set_word_ne j jt ne =
      let (buf', runs, st) = set_word-Stored buf p i value lt h (omega (arith, within_start i)) in
      rw (
        runs,
        get_word_lem buf' p j jt st.bytes (omega (arith, within_start j, st.same_length)),
        get_word_lem buf p j jt h (within_start j jt),
        st.kept j ne,
      )

-- On an index from sixteen on both methods throw, whatever the buffer.
set_word_error :
    (buf : List ℕ) (p i : ℕ) (value : ℤ) → 16 ≤ i → set_word buf p i value ≡ throw runtime_error
unfolding set_word
set_word_error buf p i value h = ground arith

get_word_error : (buf : List ℕ) (p i : ℕ) → 16 ≤ i → get_word buf p i ≡ throw runtime_error
unfolding get_word
get_word_error buf p i h = ground arith

-- In a buffer that holds the forty bytes at `p` and one more, both methods throw the runtime error
-- exactly when the index is not below sixteen.
pub index_error_iff :
    (buf : List ℕ) (p i : ℕ) (value : ℤ)
    → IsBytes buf
    → p + 41 ≤ length buf
    → ((set_word buf p i value ≡ throw runtime_error) ↔ (16 ≤ i))
      × ((get_word buf p i ≡ throw runtime_error) ↔ (16 ≤ i))
index_error_iff buf p i value h room = elim (lt_or_le i 16) [
  | inr out ↦ (
    (λ _. out, λ _. set_word_error buf p i value out),
    (λ _. out, λ _. get_word_error buf p i out),
  )
  | inl lt ↦
      let near : start p i + 4 ≤ length buf = within_start buf p i value lt h room i lt in
      let (buf', runs, _) = set_word-Stored buf p i value lt h (omega arith) in
      (
        (λ e. cc, λ out. absurd (omega arith)),
        (λ e. cc (get_word_lem buf p i lt h near), λ out. absurd (omega arith)),
      )
]

-- The last cell ends with the array, and `getWord` reads one byte more: on the processor's own
-- array of forty bytes it reads past the end, whatever the array holds.
get_word_overrun : (buf : List ℕ) → length buf ≡ tes_bias_buffer_size → get_word buf 0 15 ≡ fault
unfolding get_word load
get_word_overrun buf e = ground arith
