-- ===== src/TesBias/Tests.antt =====
-- The packed array on concrete buffers.
use smurf_processor.Prelude.{
  ℕ, ◌^◌, ◌-◌, ◌≤◌, ◌≡◌, refl, ◌↔◌, List, ok, throw, ◌>>=◌, arith, replicate, runtime_error, ◌∷◌,
  [],
}
use smurf_processor.Prelude.Int.{pos, negsuc}
use smurf_processor.Prelude.Bytes.{IsBytes, replicate-IsBytes, peek, poke, load, word}
use smurf_processor.TesBias.{set_word, get_word, set_first, set_second}
use smurf_processor.TesBias.Laws.{get_word-set_word, get_word-set_word_ne, index_error_iff}

-- bytes with every bit of a nibble pair in use
abbrev header : List ℕ
header = replicate 48 0xa5

header-IsBytes : IsBytes header
header-IsBytes = replicate-IsBytes 48 0xa5 (omega arith)

-- -2 is stored as 0xffffe: the shared byte keeps its low nibble
second_bytes :
    set_word (replicate 5 0xa5) 0 1 (negsuc 1) ≡ ok (0xa5 ∷ 0xa5 ∷ 0xe5 ∷ 0xff ∷ 0xff ∷ [])
unfolding set_word set_second peek poke
second_bytes = refl

reads_back : (set_word header 3 6 (negsuc 4) >>= λ b. get_word b 3 6) ≡ ok (negsuc 4)
unfolding set_word set_first get_word peek poke load word
reads_back = refl

get_word-set_word_example :
    (set_word header 7 15 (negsuc (2 ^ 19 - 1)) >>= λ b. get_word b 7 15) ≡ ok (negsuc (2 ^ 19 - 1))
get_word-set_word_example =
    get_word-set_word header 7 15 (negsuc (2 ^ 19 - 1)) (omega arith) header-IsBytes (omega arith)
      (record { above = omega arith; below = omega arith })

get_word-set_word_ne_example :
    (set_word header 7 4 (pos 77) >>= λ b. get_word b 7 5) ≡ get_word header 7 5
get_word-set_word_ne_example =
    get_word-set_word_ne header 7 4 (pos 77) (omega arith) header-IsBytes (omega arith) 5
      (omega arith) (omega arith)

index_error_iff_example :
    ((set_word header 7 16 (pos 1) ≡ throw runtime_error) ↔ (16 ≤ 16))
    × ((get_word header 7 16 ≡ throw runtime_error) ↔ (16 ≤ 16))
index_error_iff_example = index_error_iff header 7 16 (pos 1) header-IsBytes (omega arith)
