-- ===== src/Filter/Block.antt =====
-- The blocks of the filter's numbers: which accesses are inside of them.
use smurf_processor.Prelude.{
  Bool-cases, inl, inr, ℕ, zero, suc, ◌+◌, ◌<◌, ◌≡◌, refl, ◌∙◌, lt→ltb, List, [], ◌∷◌, Result, ok,
  length, length-set, length-replicate, get_or, set, replicate, tabulate, All, All-replicate, arith,
}
use smurf_processor.Filter.{
  Arith, Filter, cell, read_cell, channels, clear_filter, new_filter, end_run, same_order,
}
use smurf_processor.Prelude.Int.{negsuc}

module _ {F : Type 0} where
  -- `k` rows of `m` numbers
  abbrev pub IsBlock : ℕ → ℕ → List (List F) → Type 0
  IsBlock k m rows = (length rows ≡ k) × All (λ row. length row ≡ m) rows

  -- Both blocks have a row of `samples` numbers for each record, and `bn` is one of the records.
  pub record IsRing (s : Filter F) : Type 0 where
    pub some_records : 0 < s.records
    pub inside : s.bn < s.records
    pub xs : IsBlock s.records s.samples s.xd
    pub ys : IsBlock s.records s.samples s.yd

  row_length :
      (rows : List (List F)) (m r : ℕ)
      → All (λ row. length row ≡ m) rows
      → r < length rows
      → length (get_or rows r []) ≡ m
  row_length [] m r all lt = absurd (omega arith)
  row_length (row ∷ rows) m zero all lt = all.0
  row_length (row ∷ rows) m (suc r) all lt = row_length rows m r all.1 (omega arith)

  All-set :
      (rows : List (List F)) (m i : ℕ) (row : List F)
      → All (λ row. length row ≡ m) rows
      → length row ≡ m
      → All (λ row. length row ≡ m) (set rows i row)
  All-set [] m i row all e = tt
  All-set (x ∷ rows) m zero row all e = (e, all.1)
  All-set (x ∷ rows) m (suc i) row all e = (all.0, All-set rows m i row all.1 e)

  pub set-IsBlock :
      (k m i : ℕ) (rows : List (List F)) (row : List F)
      → IsBlock k m rows
      → length row ≡ m
      → IsBlock k m (set rows i row)
  set-IsBlock k m i rows row block e =
      (length-set rows i row ∙ block.0, All-set rows m i row block.1 e)

  pub blank-IsBlock : (k m : ℕ) (x : F) → IsBlock k m (replicate k (replicate m x))
  blank-IsBlock k m x = (
    length-replicate k (replicate m x),
    All-replicate (λ row. length row ≡ m) k (replicate m x) (length-replicate m x),
  )

  module _ (num : Arith F) where
    pub read_cell_in :
        (k m r n : ℕ) (rows : List (List F))
        → IsBlock k m rows
        → r < k
        → n < m
        → read_cell num rows r n ≡ ok (cell num rows r n)
    read_cell_in k m r n rows block lt lt' =
        let long = row_length rows m r block.1 (omega (arith, block.0)) in
        rw
          (
            lt→ltb r (length rows) (omega (arith, block.0)),
            lt→ltb n (length (get_or rows r [])) (omega (arith, long)),
          )
          refl

    -- A new or cleared filter with a record
    pub clear_filter-IsRing : (s : Filter F) → 0 < s.records → IsRing (clear_filter num s)
    clear_filter-IsRing s some_records = record {
      some_records = some_records;
      inside = some_records;
      xs = blank-IsBlock s.records s.samples num.null;
      ys = blank-IsBlock s.records s.samples num.null;
    }

    pub new_filter-IsRing :
        (samples records : ℕ) → 0 < records → IsRing (new_filter num samples records)
    new_filter-IsRing samples records some_records = record {
      some_records = some_records;
      inside = some_records;
      xs = blank-IsBlock records samples num.null;
      ys = blank-IsBlock records samples num.null;
    }

    pub end_run-records : (s : Filter F) → (end_run num s).records ≡ s.records
    end_run-records s = elim (Bool-cases (same_order s.order_n (negsuc 0))) [
      | inl e ↦ rw e refl
      | inr e ↦ rw e refl
    ]

    pub end_run-IsRing : (s : Filter F) → IsRing s → IsRing (end_run num s)
    end_run-IsRing s ring = elim (Bool-cases (same_order s.order_n (negsuc 0))) [
      | inl e ↦ rw e (clear_filter-IsRing s ring.some_records)
      | inr e ↦ rw e ring
    ]

    pub channels_within :
        (k n : ℕ) (f : ℕ → Result F) (g : ℕ → F)
        → ((i : ℕ) → i < n + k → f i ≡ ok (g i))
        → channels num k n f ≡ ok (tabulate k n g)
    unfolding channels
    channels_within zero n f g e = refl
    channels_within (suc k) n f g e =
        rw (e n (omega arith), channels_within k (suc n) f g (λ i h. e i (omega arith))) refl
