-- ===== src/Filter/Refine.antt =====
-- The low-pass filter against the difference equation
--   y(n) = (b(0) x(n) + sum of b(r) x(n-r) - a(r) y(n-r) for r from 1 to the order) / a(0).
use smurf_processor.Prelude.{
  take, le→leb, length-map, length-take, length-replicate, length-tabulate, All, set-set, ℕ, zero,
  suc, ◌+◌, ◌-◌, ◌%◌, ◌^◌, ◌≤◌, ◌<◌, ◌≡◌, refl, sym, ◌∙◌, ap, lt→ltb, if◌then◌else◌, ==_self, false,
  List, [], ◌∷◌, map, Result, ok, ◌>>=◌, length, get_or, set, replicate, tabulate, arith,
}
use smurf_processor.Prelude.Int.{ℤ, pos}
use mathlib.Core.Path.{subst}
use smurf_processor.Filter.{
  Arith, Filter, same_order, cell, clear_filter, add_terms, filter_channel, filter,
}
use smurf_processor.Filter.Block.{
  IsBlock, IsRing, read_cell_in, set-IsBlock, clear_filter-IsRing, channels_within,
}
use smurf_processor.Filter.Ring.{entry, back, Holds, blank-Holds, set-Holds}

module _ {F : Type 0} (num : Arith F) (a b : List F) (g : F) (samples order : ℕ) where
  -- The sum of `k` terms from the `r`-th on, for the histories `xs` and `ys` of one channel, newest first;
  -- zero stands for what is older than they are.
  abbrev pub terms : List (List F) → List (List F) → ℕ → ℕ → ℕ → F → F
  terms xs ys n zero r y = y
  terms xs ys n (suc k) r y = terms xs ys n k (suc r) (
      num.plus y (
        num.minus (num.times (get_or b r num.null) (entry num.null (get_or xs r []) n))
          (num.times (get_or a r num.null) (entry num.null (get_or ys r []) n))))

  -- The rows of inputs as numbers, and the rows of the equation's values, for frames newest first
  abbrev pub inputs_of : List (List ℤ) → List (List F)
  inputs_of frames = map (λ d. map num.of_int (take samples d)) frames

  pub values : List (List ℤ) → List (List F)
  values [] = []
  values (d ∷ past) =
      let xs = inputs_of (d ∷ past) in
      let ys = [] ∷ values past in
      tabulate samples 0 (λ n.
        num.over
          (terms xs ys n order 1
            (num.times (get_or b 0 num.null) (entry num.null (get_or xs 0 []) n)))
          (get_or a 0 num.null))
      ∷ values past

  -- What the filter gives for a frame
  abbrev pub filtered : List (List ℤ) → List ℤ
  filtered frames = map (λ y. num.to_int (num.times y g)) (get_or (values frames) 0 [])

  -- The filter holds the inputs and the values of these frames, of all since it was cleared.
  pub record HasRun (s : Filter F) (frames : List (List ℤ)) : Type 0 where
    pub ring : IsRing s
    pub samples_fixed : s.samples ≡ samples
    pub records_fixed : s.records ≡ 16
    pub inputs : Holds num.null s.bn s.xd (inputs_of frames)
    pub outputs : Holds num.null s.bn s.yd (values frames)

  -- What the filter gives for a sequence of frames, the later ones with the values of those before
  abbrev pub all_filtered : List (List ℤ) → List (List ℤ) → List (List ℤ)
  all_filtered past [] = []
  all_filtered past (d ∷ frames) = filtered (d ∷ past) ∷ all_filtered (d ∷ past) frames

  -- `filter` on a sequence of frames
  unfoldable pub filter_frames : Filter F → List (List ℤ) → Result (List (List ℤ))
  filter_frames s [] = ok []
  filter_frames s (d ∷ frames) = filter num a b s d (pos order) g >>= λ out.
      filter_frames out.0 frames >>= λ rest. ok (out.1 ∷ rest)

  module _ (short : order < 16) (enough_a : order < length a) (enough_b : order < length b) where
    -- The loop over the records adds the terms of the equation.
    add_terms_lem :
        (s : Filter F) (xs ys : List (List F)) (n : ℕ)
        → IsRing s
        → n < s.samples
        → s.records ≡ 16
        → Holds num.null s.bn s.xd xs
        → ((r : ℕ)
            → 1 ≤ r
            → r < 16
            → cell num s.yd (back s.bn r) n ≡ entry num.null (get_or ys r []) n)
        → (k r : ℕ) (y : F) → 1 ≤ r
        → k + r ≡ order + 1
        → add_terms num a b s n k r y ≡ ok (terms xs ys n k r y)
    unfolding add_terms
    add_terms_lem s xs ys n ring inn recs hx hy zero r y pos_r e = refl
    add_terms_lem s xs ys n ring inn recs hx hy (suc k) r y pos_r e =
        let nx : (s.bn + 2 ^ 32 - r) % 2 ^ 32 % s.records ≡ back s.bn r =
          ap (λ m. (s.bn + 2 ^ 32 - r) % 2 ^ 32 % m) recs ∙ omega (arith, hx.inside) in
        rw
          (
            lt→ltb r (length b) (omega arith),
            lt→ltb r (length a) (omega arith),
            nx,
            read_cell_in num s.records s.samples (back s.bn r) n s.xd ring.xs (omega (arith, recs))
                inn,
            read_cell_in num s.records s.samples (back s.bn r) n s.yd ring.ys (omega (arith, recs))
                inn,
            hx.holds r n (omega arith),
            hy r pos_r (omega arith),
          )
          (add_terms_lem s xs ys n ring inn recs hx hy k (suc r) _ (omega arith) (omega arith))

    channel_lem :
        (s : Filter F) (frames : List (List ℤ)) (d : List ℤ) (zeros : List F) (n : ℕ)
        → IsRing s
        → n < s.samples
        → s.records ≡ 16
        → Holds num.null s.bn s.xd (inputs_of (d ∷ frames))
        → Holds num.null s.bn s.yd (zeros ∷ values frames)
        → filter_channel num a b s (pos order) n
          ≡ ok (
              num.over
                (terms (inputs_of (d ∷ frames)) ([] ∷ values frames) n order 1 (
                  num.times
                    (get_or b 0 num.null)
                    (entry num.null (get_or (inputs_of (d ∷ frames)) 0 []) n)))
                (get_or a 0 num.null))
    unfolding filter_channel
    channel_lem s frames d zeros n ring inn recs hx hy =
        let now : cell num s.xd s.bn n ≡ entry num.null (get_or (inputs_of (d ∷ frames)) 0 []) n =
          ap (λ i. cell num s.xd i n) (omega (arith, hx.inside)) ∙ hx.holds 0 n (omega arith) in
        rw
          (
            lt→ltb 0 (length b) (omega arith),
            lt→ltb 0 (length a) (omega arith),
            read_cell_in num s.records s.samples s.bn n s.xd ring.xs ring.inside inn,
            now,
            add_terms_lem s (inputs_of (d ∷ frames)) ([] ∷ values frames) n ring inn recs hx
                (λ r pos_r lt. older r pos_r lt) order 1
                (num.times (get_or b 0 num.null)
                  (entry num.null (get_or (inputs_of (d ∷ frames)) 0 []) n))
                (omega arith) refl,
          )
          refl
      where
        older :
            (r : ℕ)
            → 1 ≤ r
            → r < 16
            → cell num s.yd (back s.bn r) n ≡ entry num.null (get_or ([] ∷ values frames) r []) n
        older zero pos_r lt = absurd (omega arith)
        older (suc r) pos_r lt = hy.holds (suc r) n lt

    -- One frame, where the filter that holds the frames before is what is left after the test of the order
    filter_step :
        (s s₁ : Filter F) (past : List (List ℤ)) (d : List ℤ)
        → (if same_order s.order_n (pos order) then s else clear_filter num s) ≡ s₁
        → HasRun s₁ past
        → samples ≤ length d
        → (s' : Filter F) × (filter num a b s d (pos order) g ≡ ok (s', filtered (d ∷ past)))
          × (s'.order_n ≡ pos order)
          × HasRun s' (d ∷ past)
    unfolding filter values
    filter_step s s₁ past d e h long =
        let bn = (s₁.bn + 1) % 16 in
        let zeros = replicate samples num.null in
        let counted = (s₁.samples_since_clear + 1) % 2 ^ 32 in
        let inputs = map num.of_int (take samples d) in
        let xd = set s₁.xd bn inputs in
        let moved : Filter F = record s₁ {
          samples = samples;
          records = 16;
          order_n = pos order;
          samples_since_clear = counted;
          bn = bn;
          xd = xd;
          yd = set s₁.yd bn zeros;
        } in
        let hx = set-Holds inputs h.inputs in
        let xs : IsBlock 16 samples s₁.xd =
          subst (λ k. IsBlock k samples s₁.xd) h.records_fixed
            (subst (λ m. IsBlock s₁.records m s₁.xd) h.samples_fixed h.ring.xs) in
        let ys : IsBlock 16 samples s₁.yd =
          subst (λ k. IsBlock k samples s₁.yd) h.records_fixed
            (subst (λ m. IsBlock s₁.records m s₁.yd) h.samples_fixed h.ring.ys) in
        let ring : IsRing moved = record {
          some_records = omega arith;
          inside = omega arith;
          xs =
              set-IsBlock 16 samples bn s₁.xd inputs xs
                (length-map num.of_int (take samples d) ∙ length-take samples d long);
          ys = set-IsBlock 16 samples bn s₁.yd zeros ys (length-replicate samples num.null);
        } in
        let row = get_or (values (d ∷ past)) 0 [] in
        let s' : Filter F = record moved { yd = set (set s₁.yd bn zeros) bn row } in
        (
          s',
          rw
              (
                e,
                h.records_fixed,
                h.samples_fixed,
                le→leb samples (length d) long,
                lt→ltb bn (length s₁.xd) (omega (arith, xs.0)),
                lt→ltb bn (length s₁.yd) (omega (arith, ys.0)),
                channels_within num samples 0 (filter_channel num a b moved (pos order)) _ (λ n lt.
                    channel_lem moved past d zeros n ring (omega arith) refl hx
                      (set-Holds zeros h.outputs)),
              )
              refl,
          refl,
          record {
            ring = record {
              some_records = ring.some_records;
              inside = ring.inside;
              xs = ring.xs;
              ys = set-IsBlock 16 samples bn moved.yd row ring.ys (length-tabulate samples 0 _);
            };
            samples_fixed = refl;
            records_fixed = refl;
            inputs = hx;
            outputs =
                subst (λ rows. Holds num.null bn rows (values (d ∷ past)))
                  (sym (set-set s₁.yd bn zeros row)) (set-Holds row h.outputs);
          },
        )

    on_frames :
        (frames past : List (List ℤ)) (s : Filter F)
        → s.order_n ≡ pos order
        → HasRun s past
        → All (λ d. samples ≤ length d) frames
        → filter_frames s frames ≡ ok (all_filtered past frames)
    unfolding filter_frames
    on_frames [] past s same h long = refl
    on_frames (d ∷ frames) past s same h long =
        let (s', e, same', h') = filter_step s s past d (rw (same, ==_self order) refl) h long.0 in
        rw (e, on_frames frames (d ∷ past) s' same' h' long.1) refl

    cleared : (s : Filter F) → s.samples ≡ samples → s.records ≡ 16 → HasRun (clear_filter num s) []
    unfolding values
    cleared s fixed recs =
        let blank : Holds num.null 0 (replicate s.records (replicate s.samples num.null)) [] =
          rw recs (blank-Holds num.null s.samples) in
        record {
          ring = clear_filter-IsRing num s (omega (arith, recs));
          samples_fixed = fixed;
          records_fixed = recs;
          inputs = blank;
          outputs = blank;
        }

    -- With 16 records, an order from 0 to 15, coefficients for it and a sample for each channel, a filter that last ran with another
    -- order (a new one too) clears itself and then gives, for a sequence of frames, in each channel the
    -- values of the difference equation on the frames since then, with zeros before them, times the
    -- gain and converted: the ring of records never shows in the output.
    pub filter_frames-filtered :
        (frames : List (List ℤ)) (s : Filter F)
        → s.samples ≡ samples
        → s.records ≡ 16
        → same_order s.order_n (pos order) ≡ false
        → All (λ d. samples ≤ length d) frames
        → filter_frames s frames ≡ ok (all_filtered [] frames)
    unfolding filter_frames
    filter_frames-filtered [] s fixed recs other long = refl
    filter_frames-filtered (d ∷ frames) s fixed recs other long =
        let (s', e, same, h) =
          filter_step s (clear_filter num s) [] d (rw other refl) (cleared s fixed recs) long.0 in
        rw (e, on_frames frames (d ∷ []) s' same h long.1) refl
