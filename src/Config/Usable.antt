-- ===== src/Config/Usable.antt =====
-- Settings that the filter can use, and the files that keep them so.
use smurf_processor.Prelude.{
  ℕ, zero, suc, ◌<◌, ◌≡◌, refl, ◌∙◌, ◌⊎◌, inl, inr, lt→ltb, if◌then◌else◌, Bool, Bool-cases, false,
  List, [], ◌∷◌, Option, none, some, ok, length, length-set,
}
use smurf_processor.Prelude.Strings.{codes, same_name}
use smurf_processor.Filter.{rounds}
use smurf_processor.Config.{
  Config, int_of, coefficient_name, read_coefficient, read_setting, fits, read_words,
  read_config_file,
}

-- The coefficients reach the filter's order.
pub record IsUsable {F : Type 0} (c : Config F) : Type 0 where
  pub order : rounds c.filter_order < 16
  pub a : length c.filter_a ≡ 16
  pub b : length c.filter_b ≡ 16

-- Words that fit into their buffers, with no order of the filter above 15
abbrev pub AreSettings : List (List ℕ) → Type 0
AreSettings [] = Unit
AreSettings (variable ∷ []) = length variable < 100
AreSettings (variable ∷ value ∷ words) =
    (length variable < 100)
    × (length value < 100)
    × ((same_name variable (codes "filter_order") ≡ false) ⊎ (rounds (int_of value) < 16))
    × AreSettings words

abbrev pub IsFile : Option (List (List ℕ)) → Type 0
IsFile none = Unit
IsFile (some words) = AreSettings words

module _ {F : Type 0} (strtof : List ℕ → F) where
  either : (t : Bool) (c c' : Config F) → IsUsable c → IsUsable c' → IsUsable (if t then c else c')
  either t c c' h h' = elim (Bool-cases t) [ inl e ↦ rw e h | inr e ↦ rw e h' ]

  same :
      (c c' : Config F)
      → IsUsable c
      → c'.filter_order ≡ c.filter_order
      → c'.filter_a ≡ c.filter_a
      → c'.filter_b ≡ c.filter_b
      → IsUsable c'
  same c c' h eo ea eb = record { order = rw eo h.order; a = rw ea h.a; b = rw eb h.b }

  coefficient-IsUsable :
      (k n : ℕ) (variable value : List ℕ) (c : Config F)
      → IsUsable c
      → IsUsable (read_coefficient strtof k n variable value c)
  unfolding read_coefficient
  coefficient-IsUsable zero n variable value c h = h
  coefficient-IsUsable (suc k) n variable value c h =
      either (same_name variable (coefficient_name (codes "filter_a") n)) _ _
        (record { order = h.order; a = length-set c.filter_a n (strtof value) ∙ h.a; b = h.b })
        (either (same_name variable (coefficient_name (codes "filter_b") n)) _ _
          (record { order = h.order; a = h.a; b = length-set c.filter_b n (strtof value) ∙ h.b })
          (coefficient-IsUsable k (suc n) variable value c h))

  setting-IsUsable :
      (variable value : List ℕ) (c : Config F)
      → ((same_name variable (codes "filter_order") ≡ false) ⊎ (rounds (int_of value) < 16))
      → IsUsable c
      → IsUsable (read_setting strtof variable value c)
  unfolding read_setting
  setting-IsUsable variable value c small h =
      let last =
        either (same_name variable (codes "filter_gain")) _ _ (same c _ h refl refl refl)
          (coefficient-IsUsable 16 0 variable value c h) in
      either (same_name variable (codes "num_averages")) _ _ (same c _ h refl refl refl) (
        either (same_name variable (codes "data_frames")) _ _ (same c _ h refl refl refl) (
          either (same_name variable (codes "data_file_name")) _ _ (same c _ h refl refl refl) (
            either (same_name variable (codes "file_name_extend")) _ _ (same c _ h refl refl refl)
              (elim small [
                | inl other ↦ rw other last
                | inr fits ↦
                    either (same_name variable (codes "filter_order")) _ _
                      (record { order = fits; a = h.a; b = h.b }) last
              ]))))

  -- A file of such words is read, and the settings stay usable.
  pub read_words-IsUsable :
      (words : List (List ℕ)) (c : Config F)
      → AreSettings words
      → IsUsable c
      → (c' : Config F) × (read_words strtof words c ≡ ok c') × IsUsable c'
  unfolding read_words
  read_words-IsUsable [] c all h = (c, refl, h)
  read_words-IsUsable (variable ∷ []) c all h = (c, rw (lt→ltb (length variable) 100 all) refl, h)
  read_words-IsUsable (variable ∷ value ∷ words) c all h =
      let (c', e, h') =
        read_words-IsUsable words (read_setting strtof variable value c) all.3
          (setting-IsUsable variable value c all.2 h) in
      (c', rw (lt→ltb (length variable) 100 all.0, lt→ltb (length value) 100 all.1, e) refl, h')

  pub read_config_file-IsUsable :
      (file : Option (List (List ℕ))) (c : Config F)
      → IsFile file
      → IsUsable c
      → (c' : Config F) × (read_config_file strtof file c ≡ ok c') × IsUsable c'
  read_config_file-IsUsable none c all h = (c, refl, h)
  read_config_file-IsUsable (some words) c all h = read_words-IsUsable words c all h
