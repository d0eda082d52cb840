-- ===== src/Config.antt =====
-- `SmurfConfig` of include/smurftcp.h and src/smurf_processor.cpp: the settings, and `read_config_file`.
-- `F` is the type of the filter's numbers, double in the program, and `strtof` the library's function
-- into it. The file is what `fscanf` splits it into: the words between white space.
pub mod Names
pub mod Reads
pub mod Usable
mod Tests
use smurf_processor.Prelude.{
  ℕ, zero, suc, ◌+◌, ◌-◌, ◌*◌, ◌/◌, ◌%◌, ◌^◌, ltb, if◌then◌else◌, Bool, true, false, ◌&&◌, List, [],
  ◌∷◌, ◌++◌, Option, none, some, Result, ok, within, ◌>>=◌, ◌>>◌, length, set, replicate,
}
use smurf_processor.Prelude.Int.{ℤ, pos, signed, unsigned}
use smurf_processor.Prelude.Strings.{codes, same_name, strtol}

pub record Config (F : Type 0) : Type 0 where
  pub num_averages : ℤ
  pub data_file_name : List ℕ
  pub file_name_extend : ℤ
  pub data_frames : ℤ
  pub filter_order : ℤ
  pub filter_g : F
  pub filter_a : List F
  pub filter_b : List F

-- `tmp = strtol(value, &endptr, 10)`, stored in an int
abbrev pub int_of : List ℕ → ℤ
int_of value = signed 32 (unsigned 32 (strtol value))

-- `sprintf(tmp, "filter_a%d", n)` for the coefficients that there are, which have two digits at most
abbrev pub coefficient_name : List ℕ → ℕ → List ℕ
coefficient_name prefix n =
    prefix ++ (if ltb n 10 then (b'0' + n) ∷ [] else (b'0' + n / 10) ∷ (b'0' + n % 10) ∷ [])

module _ {F : Type 0} (strtof : List ℕ → F) where
  -- The loop over the coefficients, with `k` rounds left
  unfoldable pub read_coefficient : ℕ → ℕ → List ℕ → List ℕ → Config F → Config F
  read_coefficient zero n variable value c = c
  read_coefficient (suc k) n variable value c =
      let rest = read_coefficient k (suc n) variable value c in
      if same_name variable (coefficient_name (codes "filter_a") n)
      then record c { filter_a = set c.filter_a n (strtof value) }
      else if same_name variable (coefficient_name (codes "filter_b") n)
      then record c { filter_b = set c.filter_b n (strtof value) }
      else rest

  -- The body of the loop, for a variable and its value. A setting that is the same is not stored.
  unfoldable pub read_setting : List ℕ → List ℕ → Config F → Config F
  read_setting variable value c =
      if same_name variable (codes "num_averages")
      then record c { num_averages = int_of value }
      else if same_name variable (codes "data_frames")
      then record c { data_frames = int_of value }
      else if same_name variable (codes "data_file_name")
      then record c { data_file_name = value }
      else if same_name variable (codes "file_name_extend")
      then record c { file_name_extend = int_of value }
      else if same_name variable (codes "filter_order")
      then record c { filter_order = int_of value }
      else if same_name variable (codes "filter_gain")
      then record c { filter_g = strtof value }
      else read_coefficient 16 0 variable value c

  -- `fscanf(fp, "%s", s)` into a buffer of 100 characters
  abbrev pub fits : List ℕ → Result (Unit {0})
  fits word = within (ltb (length word) 100)

  -- The loop over the words of the file: it ends where a word is missing.
  unfoldable pub read_words : List (List ℕ) → Config F → Result (Config F)
  read_words [] c = ok c
  read_words (variable ∷ []) c = fits variable >> ok c
  read_words (variable ∷ value ∷ words) c =
      fits variable >> (fits value >> read_words words (read_setting variable value c))

  -- `read_config_file()`; the file is absent where `fopen` fails. What the function returns is left out: it
  -- is false there, and elsewhere its end is reached with no `return`.
  abbrev pub read_config_file : Option (List (List ℕ)) → Config F → Result (Config F)
  read_config_file none c = ok c
  read_config_file (some words) c = read_words words c

  -- `SmurfConfig()`, with the numbers zero and one of the filter's type
  abbrev pub default_config : F → F → Config F
  default_config null one = record {
    num_averages = pos 0;
    data_file_name = codes "data";
    file_name_extend = pos 1;
    data_frames = pos 0;
    filter_order = pos 0;
    filter_g = one;
    filter_a = one ∷ replicate 15 null;
    filter_b = one ∷ replicate 15 null;
  }

  abbrev pub new_config : F → F → Option (List (List ℕ)) → Result (Config F)
  new_config null one file = read_config_file file (default_config null one)
