-- ===== src/Config/Tests.antt =====
-- A settings file with whole numbers for doubles.
use smurf_processor.Prelude.{
  ℕ, ◌<◌, ◌≡◌, refl, List, [], ◌∷◌, ◌++◌, some, ok, fault, arith, length, All, set, replicate,
}
use smurf_processor.Prelude.Int.{pos, negsuc, signed, unsigned}
use smurf_processor.Prelude.Strings.{codes, digits, strtol}
use smurf_processor.Config.{
  Config, default_config, new_config, read_words, read_setting, read_coefficient,
}
use smurf_processor.Config.Reads.{Reads, read_words-Reads, read_words_overflow}

abbrev strtof : List ℕ → ℕ
strtof word = length word

abbrev before : Config ℕ
before = default_config strtof 0 1

abbrev file : List (List ℕ)
file =
    codes "data_frames"
    ∷ codes "2000"
    ∷ codes "filter_order"
    ∷ codes "-1"
    ∷ codes "port"
    ∷ codes "3333"
    ∷ codes "filter_b11"
    ∷ codes "0.25"
    ∷ codes "data_frames"
    ∷ codes "100k"
    ∷ codes "filter_gain"
    ∷ []

-- the second number of frames counts, the unknown name is passed over, and the gain has no value
from_file :
    new_config strtof 0 1 (some file)
    ≡ ok (record before {
      data_frames = pos 100;
      filter_order = negsuc 0;
      filter_b = set before.filter_b 11 4;
    })
unfolding read_words read_setting read_coefficient strtol digits
from_file = refl

overflowed_int : signed 32 (unsigned 32 (strtol (codes "4294967297"))) ≡ pos 1
unfolding strtol digits
overflowed_int = refl

file-short : All (λ (w : List ℕ). length w < 100) file
file-short = omega arith

read_words-Reads_example :
    (c' : Config ℕ) × (read_words strtof file before ≡ ok c') × Reads strtof 0 file before c'
read_words-Reads_example = read_words-Reads strtof 0 file before file-short refl refl

read_words_overflow_example : read_words strtof (file ++ replicate 100 b'x' ∷ file) before ≡ fault
read_words_overflow_example =
    read_words_overflow strtof 0 file (replicate 100 b'x') file before (omega arith)
