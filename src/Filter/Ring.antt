-- ===== src/Filter/Ring.antt =====
-- The ring of records against the history that it holds.
use smurf_processor.Prelude.{
  ℕ, zero, suc, ◌+◌, ◌-◌, ◌%◌, ◌<◌, ◌≡◌, refl, ◌∙◌, ap, List, [], ◌∷◌, length, get_or, set,
  replicate, arith, length-set, get_or-set_self, get_or-set_ne,
}

-- The record `r` back of 16, the last one at `bn`
abbrev pub back : ℕ → ℕ → ℕ
back bn r = (bn + 16 - r) % 16

module _ {F : Type 0} where
  -- The number of a row, zero behind its end
  abbrev pub entry : F → List F → ℕ → F
  entry null row n = get_or row n null

  -- The 16 records hold the last 16 rows of a history, newest first, and zeros where it is shorter.
  pub record Holds (null : F) (bn : ℕ) (rows history : List (List F)) : Type 0 where
    pub inside : bn < 16
    pub records : length rows ≡ 16
    pub holds :
        (r n : ℕ)
        → r < 16
        → entry null (get_or rows (back bn r) []) n ≡ entry null (get_or history r []) n

  get_or-replicate : (k i : ℕ) (x d : F) → d ≡ x → get_or (replicate k x) i d ≡ x
  get_or-replicate zero i x d e = e
  get_or-replicate (suc k) zero x d e = refl
  get_or-replicate (suc k) (suc i) x d e = get_or-replicate k i x d e

  entry-blank :
      (null : F) (k samples i n : ℕ)
      → entry null (get_or (replicate k (replicate samples null)) i []) n ≡ null
  entry-blank null zero samples i n = refl
  entry-blank null (suc k) samples zero n = get_or-replicate samples n null null refl
  entry-blank null (suc k) samples (suc i) n = entry-blank null k samples i n

  length-replicate : (k : ℕ) (row : List F) → length (replicate k row) ≡ k
  length-replicate zero row = refl
  length-replicate (suc k) row = ap suc (length-replicate k row)

  pub blank-Holds :
      (null : F) (samples : ℕ) → Holds null 0 (replicate 16 (replicate samples null)) []
  blank-Holds null samples = record {
    inside = omega arith;
    records = length-replicate 16 (replicate samples null);
    holds = λ r n lt. entry-blank null 16 samples (back 0 r) n;
  }

  -- Moving on by one record and storing a row there adds it to the history.
  pub set-Holds :
      {null : F} {bn : ℕ} {rows history : List (List F)} (row : List F)
      → Holds null bn rows history
      → Holds null ((bn + 1) % 16) (set rows ((bn + 1) % 16) row) (row ∷ history)
  set-Holds {null = null} {bn = bn} {rows = rows} {history = history} row h = record {
    inside = omega arith;
    records = length-set rows ((bn + 1) % 16) row ∙ h.records;
    holds = stored;
  }
    where
      stored :
          (r n : ℕ)
          → r < 16
          → entry null (get_or (set rows ((bn + 1) % 16) row) (back ((bn + 1) % 16) r) []) n
            ≡ entry null (get_or (row ∷ history) r []) n
      stored zero n lt =
          ap (λ x. entry null x n)
            (ap (λ i. get_or (set rows ((bn + 1) % 16) row) i []) (omega arith)
              ∙ get_or-set_self rows ((bn + 1) % 16) row [] (omega (arith, h.records)))
      stored (suc r) n lt =
          ap (λ x. entry null x n)
            (get_or-set_ne rows ((bn + 1) % 16) (back ((bn + 1) % 16) (suc r)) row []
                (λ e. omega (arith, e, h.inside))
              ∙ ap (λ i. get_or rows i []) (omega (arith, h.inside)))
          ∙ h.holds r n (omega arith)
