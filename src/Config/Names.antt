-- ===== src/Config/Names.antt =====
-- The coefficients that a variable's name stands for, and what one setting changes.
use mathlib.Core.Path.{subst}
use smurf_processor.Prelude.{
  ℕ, zero, suc, ◌+◌, ◌<◌, ◌≡◌, refl, sym, ◌∙◌, ap, ◌==◌, if◌then◌else◌, Bool-cases, lt_or_le, inl,
  inr, true, false, List, arith, length, get_or, set, length-set, get_or-set_self, get_or-set_ne,
}
use smurf_processor.Prelude.Strings.{codes, same_name, eq_of_same_name}
use smurf_processor.Config.{Config, int_of, coefficient_name, read_coefficient, read_setting}

abbrev pub name_a : ℕ → List ℕ
name_a n = coefficient_name (codes "filter_a") n

abbrev pub name_b : ℕ → List ℕ
name_b n = coefficient_name (codes "filter_b") n

-- Two coefficients' names are the same for the same number only, and those of two rows never.
name_a-name_a : (n i : ℕ) → n < 16 → i < 16 → same_name (name_a n) (name_a i) ≡ (n == i)
name_a-name_a n i hn hi = ground arith

name_b-name_b : (n i : ℕ) → n < 16 → i < 16 → same_name (name_b n) (name_b i) ≡ (n == i)
name_b-name_b n i hn hi = ground arith

same_as : (v xs ys : List ℕ) → same_name v xs ≡ true → same_name v ys ≡ same_name xs ys
same_as v xs ys e = ap (λ w. same_name w ys) (eq_of_same_name v xs e)

get_or-set :
    {A : Type 0} (xs : List A) (n i : ℕ) (x d : A)
    → n < length xs
    → get_or (set xs n x) i d ≡ (if n == i then x else get_or xs i d)
get_or-set xs n i x d h = elim (Bool-cases (n == i)) [
  | inl e ↦
      let same : n ≡ i = ground (arith, e) in
      rw e (ap (λ k. get_or (set xs n x) k d) (sym same) ∙ get_or-set_self xs n x d h)
  | inr e ↦ rw e (get_or-set_ne xs n i x d (ground (arith, e)))
]

-- What the value for `variable` makes of a setting by the name `name` that was `old`
abbrev pub chosen : {A : Type 0} → List ℕ → (List ℕ → A) → List ℕ → List ℕ → A → A
chosen name f variable value old = if same_name variable name then f value else old

module _ {F : Type 0} (strtof : List ℕ → F) (d : F) where
  -- A setting changes what its variable names and nothing else.
  pub record OneSetting (variable value : List ℕ) (c c' : Config F) : Type 0 where
    pub averages :
        c'.num_averages ≡ chosen (codes "num_averages") int_of variable value c.num_averages
    pub frames : c'.data_frames ≡ chosen (codes "data_frames") int_of variable value c.data_frames
    pub name :
        c'.data_file_name ≡ chosen (codes "data_file_name") (λ v. v) variable value c.data_file_name
    pub extend :
        c'.file_name_extend
        ≡ chosen (codes "file_name_extend") int_of variable value c.file_name_extend
    pub order : c'.filter_order ≡ chosen (codes "filter_order") int_of variable value c.filter_order
    pub gain : c'.filter_g ≡ chosen (codes "filter_gain") strtof variable value c.filter_g
    pub room_a : length c'.filter_a ≡ length c.filter_a
    pub room_b : length c'.filter_b ≡ length c.filter_b
    pub coefficients_a :
        (i : ℕ)
        → i < 16
        → get_or c'.filter_a i d ≡ chosen (name_a i) strtof variable value (get_or c.filter_a i d)
    pub coefficients_b :
        (i : ℕ)
        → i < 16
        → get_or c'.filter_b i d ≡ chosen (name_b i) strtof variable value (get_or c.filter_b i d)

  scalars_kept :
      (k n : ℕ) (variable value : List ℕ) (c : Config F)
      → (let c' = read_coefficient strtof k n variable value c in
          (c'.num_averages ≡ c.num_averages)
          × (c'.data_frames ≡ c.data_frames)
          × (c'.data_file_name ≡ c.data_file_name)
          × (c'.file_name_extend ≡ c.file_name_extend)
          × (c'.filter_order ≡ c.filter_order)
          × (c'.filter_g ≡ c.filter_g)
          × (length c'.filter_a ≡ length c.filter_a)
          × (length c'.filter_b ≡ length c.filter_b))
  unfolding read_coefficient
  scalars_kept zero n variable value c = (refl, refl, refl, refl, refl, refl, refl, refl)
  scalars_kept (suc k) n variable value c = ground (
    arith,
    scalars_kept k (suc n) variable value c,
    length-set c.filter_a n (strtof value),
    length-set c.filter_b n (strtof value),
  )

  -- The coefficient at `i` behind the loop from `n` on
  coefficients_lem :
      (k n : ℕ) (variable value : List ℕ) (c : Config F) (i : ℕ)
      → k + n ≡ 16
      → i < 16
      → length c.filter_a ≡ 16
      → length c.filter_b ≡ 16
      → (i < n → (same_name variable (name_a i) ≡ false) × (same_name variable (name_b i) ≡ false))
      → (let c' = read_coefficient strtof k n variable value c in
          (get_or c'.filter_a i d ≡ chosen (name_a i) strtof variable value (get_or c.filter_a i d))
          × (get_or c'.filter_b i d
              ≡ chosen (name_b i) strtof variable value (get_or c.filter_b i d)))
  unfolding read_coefficient
  coefficients_lem zero n variable value c i e lt ra rb before = ground (arith, before)
  coefficients_lem (suc k) n variable value c i e lt ra rb before =
      elim (Bool-cases (same_name variable (name_a n))) [
        | inl ea ↦
            let ta =
              same_as variable (name_a n) (name_a i) ea ∙ name_a-name_a n i (omega arith) lt in
            let tb : same_name variable (name_b i) ≡ false =
              same_as variable (name_a n) (name_b i) ea in
            rw (ea, ta, tb) (get_or-set c.filter_a n i (strtof value) d (omega arith), refl)
        | inr na ↦ elim (Bool-cases (same_name variable (name_b n))) [
          | inl eb ↦
              let ta : same_name variable (name_a i) ≡ false =
                same_as variable (name_b n) (name_a i) eb in
              let tb =
                same_as variable (name_b n) (name_b i) eb ∙ name_b-name_b n i (omega arith) lt in
              rw (na, eb, ta, tb) (refl, get_or-set c.filter_b n i (strtof value) d (omega arith))
          | inr nb ↦
              rw (na, nb)
                (coefficients_lem k (suc n) variable value c i (omega arith) lt ra rb (λ h.
                  elim (lt_or_le i n) [
                    | inl lower ↦ before lower
                    | inr upper ↦ let same : i ≡ n = omega arith in rw same (na, nb)
                  ]))
        ]
      ]

  module _ (variable value : List ℕ) (c : Config F) where
    -- The body of the loop for a variable by one of the six fixed names
    fixed_name :
        (name : List ℕ)
        → same_name variable name ≡ true
        → OneSetting name value c (read_setting strtof name value c)
        → OneSetting variable value c (read_setting strtof variable value c)
    fixed_name name e one =
        subst (λ v. OneSetting v value c (read_setting strtof v value c))
          (sym (eq_of_same_name variable name e)) one

    pub read_setting-OneSetting :
        length c.filter_a ≡ 16
        → length c.filter_b ≡ 16
        → OneSetting variable value c (read_setting strtof variable value c)
    unfolding read_setting
    read_setting-OneSetting ra rb = elim (Bool-cases (same_name variable (codes "num_averages"))) [
      | inl e0 ↦ fixed_name (codes "num_averages") e0 (record {
        averages = refl;
        frames = refl;
        name = refl;
        extend = refl;
        order = refl;
        gain = refl;
        room_a = refl;
        room_b = refl;
        coefficients_a = λ i h. refl;
        coefficients_b = λ i h. refl;
      })
      | inr e0 ↦ elim (Bool-cases (same_name variable (codes "data_frames"))) [
        | inl e1 ↦ fixed_name (codes "data_frames") e1 (record {
          averages = refl;
          frames = refl;
          name = refl;
          extend = refl;
          order = refl;
          gain = refl;
          room_a = refl;
          room_b = refl;
          coefficients_a = λ i h. refl;
          coefficients_b = λ i h. refl;
        })
        | inr e1 ↦ elim (Bool-cases (same_name variable (codes "data_file_name"))) [
          | inl e2 ↦ fixed_name (codes "data_file_name") e2 (record {
            averages = refl;
            frames = refl;
            name = refl;
            extend = refl;
            order = refl;
            gain = refl;
            room_a = refl;
            room_b = refl;
            coefficients_a = λ i h. refl;
            coefficients_b = λ i h. refl;
          })
          | inr e2 ↦ elim (Bool-cases (same_name variable (codes "file_name_extend"))) [
            | inl e3 ↦ fixed_name (codes "file_name_extend") e3 (record {
              averages = refl;
              frames = refl;
              name = refl;
              extend = refl;
              order = refl;
              gain = refl;
              room_a = refl;
              room_b = refl;
              coefficients_a = λ i h. refl;
              coefficients_b = λ i h. refl;
            })
            | inr e3 ↦ elim (Bool-cases (same_name variable (codes "filter_order"))) [
              | inl e4 ↦ fixed_name (codes "filter_order") e4 (record {
                averages = refl;
                frames = refl;
                name = refl;
                extend = refl;
                order = refl;
                gain = refl;
                room_a = refl;
                room_b = refl;
                coefficients_a = λ i h. refl;
                coefficients_b = λ i h. refl;
              })
              | inr e4 ↦ elim (Bool-cases (same_name variable (codes "filter_gain"))) [
                | inl e5 ↦ fixed_name (codes "filter_gain") e5 (record {
                  averages = refl;
                  frames = refl;
                  name = refl;
                  extend = refl;
                  order = refl;
                  gain = refl;
                  room_a = refl;
                  room_b = refl;
                  coefficients_a = λ i h. refl;
                  coefficients_b = λ i h. refl;
                })
                | inr e5 ↦
                    let kept = scalars_kept 16 0 variable value c in
                    let stored = λ (i : ℕ) (h : i < 16).
                      coefficients_lem 16 0 variable value c i refl h ra rb
                        (λ lower. absurd (omega arith)) in
                    rw (e0, e1, e2, e3, e4, e5)
                      (record {
                        averages = rw e0 kept.0;
                        frames = rw e1 kept.1;
                        name = rw e2 kept.2;
                        extend = rw e3 kept.3;
                        order = rw e4 kept.4;
                        gain = rw e5 kept.5;
                        room_a = kept.6;
                        room_b = kept.7;
                        coefficients_a = λ i h. (stored i h).0;
                        coefficients_b = λ i h. (stored i h).1;
                      })
              ]
            ]
          ]
        ]
      ]
    ]
