-- ===== src/Filter.antt =====
-- `SmurfFilter` of include/smurftcp.h and src/smurf_processor.cpp. The numbers of type double are a
-- parameter with the operations that the filter applies to them. The blocks `xd` and `yd` are lists of
-- rows, one for each of the 16 records, and a row has one number for each channel; `inputs` has
-- one for each channel too. `output` and the unused `clear` are not kept: a call returns its output.
pub mod Ring
pub mod Block
pub mod Refine
pub mod Average
pub mod Total
mod Tests
use smurf_processor.Prelude.{
  ℕ, zero, suc, ◌+◌, ◌-◌, ◌%◌, ◌^◌, ltb, leb, ◌&&◌, take, ◌==◌, if◌then◌else◌, Bool, true, false,
  List, [], ◌∷◌, map, Result, ok, within, ◌>>=◌, ◌>>◌, length, get_or, set, replicate,
}
use smurf_processor.Prelude.Int.{ℤ, pos, negsuc}

-- The operations on `filter_t`, with the conversions from and to `avgdata_t`
pub record Arith (F : Type 0) : Type 0 where
  pub null : F
  pub plus : F → F → F
  pub minus : F → F → F
  pub times : F → F → F
  pub over : F → F → F
  pub of_int : ℤ → F
  pub to_int : F → ℤ

pub record Filter (F : Type 0) : Type 0 where
  pub samples : ℕ
  pub records : ℕ
  pub xd : List (List F)
  pub yd : List (List F)
  pub bn : ℕ
  pub samples_since_clear : ℕ
  pub order_n : ℤ

abbrev pub same_order : ℤ → ℤ → Bool
same_order (pos m) (pos n) = m == n
same_order (negsuc m) (negsuc n) = m == n
same_order (pos m) (negsuc n) = false
same_order (negsuc m) (pos n) = false

-- The rounds of `for (int r = 1; r <= order; r++)`
abbrev pub rounds : ℤ → ℕ
rounds (pos n) = n
rounds (negsuc n) = 0

module _ {F : Type 0} (num : Arith F) where
  -- `*(xd + r * samples + n)`
  abbrev pub cell : List (List F) → ℕ → ℕ → F
  cell rows r n = get_or (get_or rows r []) n num.null

  -- An access behind the end of a block or of a row is undefined.
  abbrev pub read_cell : List (List F) → ℕ → ℕ → Result F
  read_cell rows r n =
      within (ltb r (length rows) && ltb n (length (get_or rows r []))) >> ok (cell rows r n)

  abbrev pub clear_filter : Filter F → Filter F
  clear_filter s = record s {
    xd = replicate s.records (replicate s.samples num.null);
    yd = replicate s.records (replicate s.samples num.null);
    samples_since_clear = 0;
    order_n = negsuc 0;
    bn = 0;
  }

  abbrev pub new_filter : ℕ → ℕ → Filter F
  new_filter samples records = clear_filter (record {
    samples = samples;
    records = records;
    xd = [];
    yd = [];
    bn = 0;
    samples_since_clear = 0;
    order_n = negsuc 0;
  })

  abbrev pub end_run : Filter F → Filter F
  end_run s = if same_order s.order_n (negsuc 0) then clear_filter s else s

  -- `b[r]`
  abbrev pub coefficient : List F → ℕ → Result F
  coefficient xs r = within (ltb r (length xs)) >> ok (get_or xs r num.null)

  -- Channel `n` in every round of a loop over channels
  unfoldable pub channels : ℕ → ℕ → (ℕ → Result F) → Result (List F)
  channels zero n f = ok []
  channels (suc k) n f = f n >>= λ y. channels k (suc n) f >>= λ ys. ok (y ∷ ys)

  module _ (a b : List F) where
    -- The loop over `r` for one channel, with `k` rounds left. `nx` is computed on 32 bits.
    unfoldable pub add_terms : Filter F → ℕ → ℕ → ℕ → F → Result F
    add_terms s n zero r y = ok y
    add_terms s n (suc k) r y = do
      br ← coefficient b r
      ar ← coefficient a r
      let nx = (s.bn + 2 ^ 32 - r) % 2 ^ 32 % s.records
      x ← read_cell s.xd nx n
      old ← read_cell s.yd nx n
      add_terms s n k (suc r) (num.plus y (num.minus (num.times br x) (num.times ar old)))

    -- The new value of `yd` for one channel
    unfoldable pub filter_channel : Filter F → ℤ → ℕ → Result F
    filter_channel s order n = do
      b0 ← coefficient b 0
      x ← read_cell s.xd s.bn n
      y ← add_terms s n (rounds order) 1 (num.times b0 x)
      a0 ← coefficient a 0
      ok (num.over y a0)

    -- `filter(data, order, a, b, g)`. The remainder is undefined for no records, and the accesses are for a record
    -- that the blocks do not have, or a sample that `data` does not have.
    unfoldable pub filter : Filter F → List ℤ → ℤ → F → Result (Filter F × List ℤ)
    filter s₀ inputs order g = do
      let s₁ = if same_order s₀.order_n order then s₀ else clear_filter s₀
      let s = record s₁ {
        order_n = order;
        samples_since_clear = (s₁.samples_since_clear + 1) % 2 ^ 32;
      }
      let bn = (s.bn + 1) % s.records
      let moved = record s {
        bn = bn;
        xd = set s.xd bn (map num.of_int (take s.samples inputs));
        yd = set s.yd bn (replicate s.samples num.null);
      }
      if same_order order (negsuc 0)
          then (within (leb s.samples (length inputs) && ltb s.bn (length s.yd))
              >> channels s.samples 0 (λ n. read_cell s.yd s.bn n >>= λ y.
                  ok (num.plus y (num.of_int (get_or inputs n (pos 0)))))
              >>= λ ys. ok (
                record s { yd = set s.yd s.bn ys },
                map (λ y. num.to_int (num.over y (num.of_int (pos s.samples_since_clear)))) ys,
              ))
          else (within (
                ltb 0 s.records
                && leb s.samples (length inputs)
                && (ltb bn (length s.xd) && ltb bn (length s.yd)))
              >> channels s.samples 0 (filter_channel moved order)
              >>= λ ys. ok (
                record moved { yd = set moved.yd bn ys },
                map (λ y. num.to_int (num.times y g)) ys,
              ))
