-- ===== src/Filter/Average.antt =====
-- The order -1, for which the filter is a flat average of the frames since it was cleared.
use smurf_processor.Prelude.{
  le→leb, lt→ltb, length-tabulate, ℕ, zero, suc, ◌+◌, ◌%◌, ◌^◌, ◌≤◌, ◌<◌, ◌≡◌, refl, ◌∙◌, ap, List,
  [], ◌∷◌, map, Result, ok, ◌>>=◌, length, get_or, get_or-set_self, set, replicate, tabulate,
  get_or-tabulate, All, arith,
}
use smurf_processor.Prelude.Int.{ℤ, pos, negsuc}
use mathlib.Core.Path.{subst}
use smurf_processor.Filter.Block.{
  IsRing, IsBlock, read_cell_in, set-IsBlock, clear_filter-IsRing, channels_within,
}
use smurf_processor.Filter.{read_cell, Arith, Filter, cell, clear_filter, end_run, channels, filter}

get_or-replicate_self : {F : Type 0} (k n : ℕ) (x : F) → get_or (replicate k x) n x ≡ x
get_or-replicate_self zero n x = refl
get_or-replicate_self (suc k) zero x = refl
get_or-replicate_self (suc k) (suc n) x = get_or-replicate_self k n x

module _ {F : Type 0} (num : Arith F) (a b : List F) (g : F) where
  -- `filter` on the frames of one average, and `end_run` behind them
  unfoldable pub flat_frames : Filter F → List (List ℤ) → Result (Filter F × List (List ℤ))
  flat_frames s [] = ok (end_run num s, [])
  flat_frames s (d ∷ frames) = filter num a b s d (negsuc 0) g >>= λ out.
      flat_frames out.0 frames >>= λ rest. ok (rest.0, out.1 ∷ rest.1)

  unfoldable pub flat_runs : Filter F → List (List (List ℤ)) → Result (List (List (List ℤ)))
  flat_runs s [] = ok []
  flat_runs s (frames ∷ runs) =
      flat_frames s frames >>= λ out. flat_runs out.0 runs >>= λ rest. ok (out.1 ∷ rest)

module _ {F : Type 0} (num : Arith F) (samples : ℕ) where
  -- The sum of one channel over these frames, newest first
  abbrev pub sum : ℕ → List (List ℤ) → F
  sum n [] = num.null
  sum n (d ∷ past) = num.plus (sum n past) (num.of_int (get_or d n (pos 0)))

  abbrev pub average : List (List ℤ) → List ℤ
  average frames =
      map (λ y. num.to_int (num.over y (num.of_int (pos (length frames)))))
        (tabulate samples 0 (λ n. sum n frames))

  -- The averages behind each of the frames, with those before
  abbrev pub averages : List (List ℤ) → List (List ℤ) → List (List ℤ)
  averages past [] = []
  averages past (d ∷ frames) = average (d ∷ past) ∷ averages (d ∷ past) frames

  -- The filter holds the sums of these frames, of all since it was cleared.
  record Sums (s : Filter F) (frames : List (List ℤ)) : Type 0 where
    samples_fixed : s.samples ≡ samples
    records_fixed : s.records ≡ 16
    flat : s.order_n ≡ negsuc 0
    at_start : s.bn ≡ 0
    count : s.samples_since_clear ≡ length frames
    ring : IsRing s
    holds : (n : ℕ) → n < samples → cell num s.yd 0 n ≡ sum n frames

  cleared-Sums :
      (s : Filter F) → s.samples ≡ samples → s.records ≡ 16 → Sums (clear_filter num s) []
  cleared-Sums s fixed recs = record {
    samples_fixed = fixed;
    records_fixed = recs;
    flat = refl;
    at_start = refl;
    count = refl;
    ring = clear_filter-IsRing num s (omega (arith, recs));
    holds = λ n h. rw recs (get_or-replicate_self s.samples n num.null);
  }

  module _ (a b : List F) (g : F) where
    flat_step :
        (s : Filter F) (past : List (List ℤ)) (d : List ℤ)
        → Sums s past
        → length past + 1 < 2 ^ 32
        → samples ≤ length d
        → (s' : Filter F) × (filter num a b s d (negsuc 0) g ≡ ok (s', average (d ∷ past)))
          × Sums s' (d ∷ past)
    unfolding filter
    flat_step s past d h few long =
        let row = tabulate samples 0 (λ n. sum n (d ∷ past)) in
        let counted : (s.samples_since_clear + 1) % 2 ^ 32 ≡ length (d ∷ past) =
          omega (arith, h.count) in
        let summed : channels num samples 0 (λ n.
          read_cell num s.yd 0 n >>= λ y. ok (num.plus y (num.of_int (get_or d n (pos 0)))))
            ≡ ok row =
          channels_within num samples 0 _ _ (λ n lt.
            rw
              (read_cell_in num s.records s.samples 0 n s.yd h.ring.ys h.ring.some_records
                (omega (arith, h.samples_fixed)))
              (ap (λ y. ok (num.plus y (num.of_int (get_or d n (pos 0)))))
                (h.holds n (omega arith)))) in
        let rows : 0 < length s.yd = omega (arith, h.ring.some_records, h.ring.ys.0) in
        let s' : Filter F = record s {
          samples = samples;
          order_n = negsuc 0;
          samples_since_clear = length (d ∷ past);
          bn = 0;
          yd = set s.yd 0 row;
        } in
        (
          s',
          rw
              (
                h.flat,
                h.samples_fixed,
                h.at_start,
                le→leb samples (length d) long,
                summed,
                lt→ltb 0 (length s.yd) rows,
                counted,
              )
              refl,
          record {
            ring = record {
              some_records = h.ring.some_records;
              inside = h.ring.some_records;
              xs = subst (λ m. IsBlock s.records m s.xd) h.samples_fixed h.ring.xs;
              ys =
                  set-IsBlock s.records samples 0 s.yd row
                    (subst (λ m. IsBlock s.records m s.yd) h.samples_fixed h.ring.ys)
                    (length-tabulate samples 0 _);
            };
            samples_fixed = refl;
            records_fixed = h.records_fixed;
            flat = refl;
            at_start = refl;
            count = refl;
            holds = λ n lt.
                ap (λ r. get_or r n num.null) (get_or-set_self s.yd 0 row [] rows)
                ∙ get_or-tabulate samples 0 n (λ i. sum i (d ∷ past)) num.null lt
                ∙ ap (λ i. sum i (d ∷ past)) (omega arith);
          },
        )

    on_run :
        (frames past : List (List ℤ)) (s : Filter F)
        → Sums s past
        → length past + length frames < 2 ^ 32
        → All (λ d. samples ≤ length d) frames
        → (s' : Filter F) × (flat_frames num a b g s frames ≡ ok (s', averages past frames))
          × Sums s' []
    unfolding flat_frames
    on_run [] past s h few long =
        (clear_filter num s, rw h.flat refl, cleared-Sums s h.samples_fixed h.records_fixed)
    on_run (d ∷ frames) past s h few long =
        let (s₁, e, h₁) = flat_step s past d h (omega arith) long.0 in
        let (s', e', h') = on_run frames (d ∷ past) s₁ h₁ (omega arith) long.1 in
        (s', rw (e, e') refl, h')

    on_runs :
        (runs : List (List (List ℤ))) (s : Filter F)
        → Sums s []
        → All (λ frames. (length frames < 2 ^ 32) × All (λ d. samples ≤ length d) frames) runs
        → flat_runs num a b g s runs ≡ ok (map (averages []) runs)
    unfolding flat_runs
    on_runs [] s h few = refl
    on_runs (frames ∷ runs) s h few =
        let (s', e, h') = on_run frames [] s h (omega (arith, few.0.0)) few.0.1 in
        rw (e, on_runs runs s' h' few.1) refl

    -- With the order -1, a new or cleared filter of 16 records gives for each frame and channel the sum of the
    -- channel over the frames since the last `end_run`, this one included, divided by their number and
    -- converted, as long as there is a sample for each channel and there are fewer than 2^32 frames between two calls
    -- of `end_run`: no average has a part in the next one.
    pub flat_runs-averages :
        (runs : List (List (List ℤ))) (s : Filter F)
        → s.samples ≡ samples
        → s.records ≡ 16
        → All (λ frames. (length frames < 2 ^ 32) × All (λ d. samples ≤ length d) frames) runs
        → flat_runs num a b g (clear_filter num s) runs ≡ ok (map (averages []) runs)
    flat_runs-averages runs s fixed recs few =
        on_runs runs (clear_filter num s) (cleared-Sums s fixed recs) few
