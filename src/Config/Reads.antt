-- ===== src/Config/Reads.antt =====
-- What the settings are behind a whole file.
use smurf_processor.Prelude.{
  ℕ, ◌≤◌, ◌<◌, ◌≡◌, refl, ◌∙◌, ap, lt→ltb, le→ltb, lt_or_le, inl, inr, List, [], ◌∷◌, ◌++◌, ok,
  fault, length, get_or, All,
}
use smurf_processor.Prelude.Strings.{codes}
use smurf_processor.Config.{Config, int_of, read_setting, read_words}
use smurf_processor.Config.Names.{name_a, name_b, chosen, read_setting-OneSetting}

-- The value of the last setting by the name `name` in a file, or the one before, `old`
abbrev pub last_value : {A : Type 0} → (List ℕ → A) → List ℕ → List (List ℕ) → A → A
last_value f name [] old = old
last_value f name (variable ∷ []) old = old
last_value f name (variable ∷ value ∷ words) old =
    last_value f name words (chosen name f variable value old)

module _ {F : Type 0} (strtof : List ℕ → F) (d : F) where
  -- Each setting of `c'` is the last one of its name in the file, and the one in `c` where there is none.
  pub record Reads (words : List (List ℕ)) (c c' : Config F) : Type 0 where
    pub averages : c'.num_averages ≡ last_value int_of (codes "num_averages") words c.num_averages
    pub frames : c'.data_frames ≡ last_value int_of (codes "data_frames") words c.data_frames
    pub name :
        c'.data_file_name ≡ last_value (λ v. v) (codes "data_file_name") words c.data_file_name
    pub extend :
        c'.file_name_extend ≡ last_value int_of (codes "file_name_extend") words c.file_name_extend
    pub order : c'.filter_order ≡ last_value int_of (codes "filter_order") words c.filter_order
    pub gain : c'.filter_g ≡ last_value strtof (codes "filter_gain") words c.filter_g
    pub room_a : length c'.filter_a ≡ 16
    pub room_b : length c'.filter_b ≡ 16
    pub coefficients_a :
        (i : ℕ)
        → i < 16
        → get_or c'.filter_a i d ≡ last_value strtof (name_a i) words (get_or c.filter_a i d)
    pub coefficients_b :
        (i : ℕ)
        → i < 16
        → get_or c'.filter_b i d ≡ last_value strtof (name_b i) words (get_or c.filter_b i d)

  -- A file whose words have at most 99 characters is read without an error, and each setting is then
  -- the value of the last pair of words that names it; a setting that no pair names is as
  -- before. Other names, and a last word with no value, change nothing.
  pub read_words-Reads :
      (words : List (List ℕ)) (c : Config F)
      → All (λ w. length w < 100) words
      → length c.filter_a ≡ 16
      → length c.filter_b ≡ 16
      → (c' : Config F) × (read_words strtof words c ≡ ok c') × Reads words c c'
  unfolding read_words
  read_words-Reads [] c short ra rb = (
    c,
    refl,
    record {
      averages = refl;
      frames = refl;
      name = refl;
      extend = refl;
      order = refl;
      gain = refl;
      room_a = ra;
      room_b = rb;
      coefficients_a = λ i h. refl;
      coefficients_b = λ i h. refl;
    },
  )
  read_words-Reads (variable ∷ []) c short ra rb = (
    c,
    rw (lt→ltb (length variable) 100 short.0) refl,
    record {
      averages = refl;
      frames = refl;
      name = refl;
      extend = refl;
      order = refl;
      gain = refl;
      room_a = ra;
      room_b = rb;
      coefficients_a = λ i h. refl;
      coefficients_b = λ i h. refl;
    },
  )
  read_words-Reads (variable ∷ value ∷ words) c short ra rb =
      let one = read_setting-OneSetting strtof d variable value c ra rb in
      let c₁ = read_setting strtof variable value c in
      let (c', e, r) = read_words-Reads words c₁ short.1.1 (one.room_a ∙ ra) (one.room_b ∙ rb) in
      (
        c',
        rw (lt→ltb (length variable) 100 short.0, lt→ltb (length value) 100 short.1.0) e,
        record {
          averages = r.averages ∙ ap (last_value int_of (codes "num_averages") words) one.averages;
          frames = r.frames ∙ ap (last_value int_of (codes "data_frames") words) one.frames;
          name = r.name ∙ ap (last_value (λ v. v) (codes "data_file_name") words) one.name;
          extend = r.extend ∙ ap (last_value int_of (codes "file_name_extend") words) one.extend;
          order = r.order ∙ ap (last_value int_of (codes "filter_order") words) one.order;
          gain = r.gain ∙ ap (last_value strtof (codes "filter_gain") words) one.gain;
          room_a = r.room_a;
          room_b = r.room_b;
          coefficients_a = λ i h.
              r.coefficients_a i h
              ∙ ap (last_value strtof (name_a i) words) (one.coefficients_a i h);
          coefficients_b = λ i h.
              r.coefficients_b i h
              ∙ ap (last_value strtof (name_b i) words) (one.coefficients_b i h);
        },
      )

  -- A word of 100 characters or more, wherever it stands in the file, is written past its buffer.
  pub read_words_overflow :
      (words : List (List ℕ)) (word : List ℕ) (more : List (List ℕ)) (c : Config F)
      → 100 ≤ length word
      → read_words strtof (words ++ word ∷ more) c ≡ fault
  unfolding read_words
  read_words_overflow [] word [] c long = rw (le→ltb (length word) 100 long) refl
  read_words_overflow [] word (value ∷ more) c long = rw (le→ltb (length word) 100 long) refl
  read_words_overflow (variable ∷ []) word more c long = elim (lt_or_le (length variable) 100) [
    | inl short ↦ rw (lt→ltb (length variable) 100 short, le→ltb (length word) 100 long) refl
    | inr over ↦ rw (le→ltb (length variable) 100 over) refl
  ]
  read_words_overflow (variable ∷ value ∷ words) word more c long =
      elim (lt_or_le (length variable) 100) [
        | inl short ↦ elim (lt_or_le (length value) 100) [
          | inl short' ↦
              rw (lt→ltb (length variable) 100 short, lt→ltb (length value) 100 short')
                (read_words_overflow words word more (read_setting strtof variable value c) long)
          | inr over ↦ rw (lt→ltb (length variable) 100 short, le→ltb (length value) 100 over) refl
        ]
        | inr over ↦ rw (le→ltb (length variable) 100 over) refl
      ]
