-- ===== src/Filter/Total.antt =====
-- The filter gives a result for each order that its coefficients reach.
use smurf_processor.Prelude.{
  true, false, ◌-◌, ◌>>=◌, le→leb, take, length-take, length-replicate, ℕ, zero, suc, ◌+◌, ◌%◌, ◌^◌,
  ◌≤◌, ◌<◌, ◌≡◌, refl, ◌∙◌, ap, lt→ltb, Bool-cases, inl, inr, if◌then◌else◌, List, [], ◌∷◌, map,
  Result, ok, length, length-map, get_or, set, replicate, arith,
}
use smurf_processor.Prelude.Int.{ℤ, pos, negsuc}
use native.Mathlib.Nat.{mod-lt}
use smurf_processor.Filter.Block.{IsRing, read_cell_in, set-IsBlock, clear_filter-IsRing}
use smurf_processor.Filter.{
  read_cell, Arith, Filter, same_order, rounds, cell, clear_filter, channels, add_terms,
  filter_channel, filter,
}

module _ {F : Type 0} (num : Arith F) where
  channels_total :
      (k n : ℕ) (f : ℕ → Result F)
      → ((i : ℕ) → i < n + k → (y : F) × (f i ≡ ok y))
      → (ys : List F) × (channels num k n f ≡ ok ys) × (length ys ≡ k)
  unfolding channels
  channels_total zero n f each = ([], refl, refl)
  channels_total (suc k) n f each =
      let (y, e) = each n (omega arith) in
      let (ys, e', l) = channels_total k (suc n) f (λ i h. each i (omega arith)) in
      (y ∷ ys, rw (e, e') refl, ap suc l)

  module _ (a b : List F) where
    add_terms_total :
        (s : Filter F) (n k r : ℕ) (y : F)
        → IsRing s
        → n < s.samples
        → k + r ≤ length a
        → k + r ≤ length b
        → (y' : F) × (add_terms num a b s n k r y ≡ ok y')
    unfolding add_terms
    add_terms_total s n zero r y ring lt ha hb = (y, refl)
    add_terms_total s n (suc k) r y ring lt ha hb =
        let nx = (s.bn + 2 ^ 32 - r) % 2 ^ 32 % s.records in
        let inside : nx < s.records = mod-lt ((s.bn + 2 ^ 32 - r) % 2 ^ 32) ring.some_records in
        rw
          (
            lt→ltb r (length b) (omega arith),
            lt→ltb r (length a) (omega arith),
            read_cell_in num s.records s.samples nx n s.xd ring.xs inside lt,
            read_cell_in num s.records s.samples nx n s.yd ring.ys inside lt,
          )
          (add_terms_total s n k (suc r) _ ring lt (omega arith) (omega arith))

    channel_total :
        (s : Filter F) (order : ℤ) (n : ℕ)
        → IsRing s
        → n < s.samples
        → rounds order < length a
        → rounds order < length b
        → (y : F) × (filter_channel num a b s order n ≡ ok y)
    unfolding filter_channel
    channel_total s order n ring lt ha hb =
        let (y, e) =
          add_terms_total s n (rounds order) 1
            (num.times (get_or b 0 num.null) (cell num s.xd s.bn n)) ring lt (omega arith)
            (omega arith) in
        (
          num.over y (get_or a 0 num.null),
          rw
              (
                lt→ltb 0 (length b) (omega arith),
                lt→ltb 0 (length a) (omega arith),
                read_cell_in num s.records s.samples s.bn n s.xd ring.xs ring.inside lt,
                e,
              )
              refl,
        )

    -- What a call gives: a value for each channel, and blocks of the same shape
    abbrev pub Filters : Filter F → List ℤ → ℤ → F → Type 0
    Filters s inputs order g =
        (s' : Filter F) × (out : List ℤ) × (filter num a b s inputs order g ≡ ok (s', out))
        × (length out ≡ s.samples)
        × (s'.samples ≡ s.samples)
        × (s'.records ≡ s.records)
        × IsRing s'

    flat_total :
        (s₀ s₁ : Filter F) (inputs : List ℤ) (order : ℤ) (g : F)
        → (if same_order s₀.order_n order then s₀ else clear_filter num s₀) ≡ s₁
        → s₁.samples ≡ s₀.samples
        → s₁.records ≡ s₀.records
        → same_order order (negsuc 0) ≡ true
        → IsRing s₁
        → s₁.samples ≤ length inputs
        → Filters s₀ inputs order g
    unfolding filter
    flat_total s₀ s₁ inputs order g e es er flat ring long =
        let counted = (s₁.samples_since_clear + 1) % 2 ^ 32 in
        let (sums, summed, ls) =
          channels_total s₁.samples 0
            (λ n. read_cell num s₁.yd s₁.bn n >>= λ y.
              ok (num.plus y (num.of_int (get_or inputs n (pos 0)))))
            (λ n lt. (
              num.plus (cell num s₁.yd s₁.bn n) (num.of_int (get_or inputs n (pos 0))),
              rw
                  (read_cell_in num s₁.records s₁.samples s₁.bn n s₁.yd ring.ys ring.inside
                    (omega arith))
                  refl,
            )) in
        (
          record s₁ { order_n = order; samples_since_clear = counted; yd = set s₁.yd s₁.bn sums },
          map (λ y. num.to_int (num.over y (num.of_int (pos counted)))) sums,
          rw
              (
                e,
                flat,
                le→leb s₁.samples (length inputs) long,
                summed,
                lt→ltb s₁.bn (length s₁.yd) (omega (arith, ring.inside, ring.ys.0)),
              )
              refl,
          length-map (λ y. num.to_int (num.over y (num.of_int (pos counted)))) sums ∙ ls ∙ es,
          es,
          er,
          record {
            some_records = ring.some_records;
            inside = ring.inside;
            xs = ring.xs;
            ys = set-IsBlock s₁.records s₁.samples s₁.bn s₁.yd sums ring.ys ls;
          },
        )

    iir_total :
        (s₀ s₁ : Filter F) (inputs : List ℤ) (order : ℤ) (g : F)
        → (if same_order s₀.order_n order then s₀ else clear_filter num s₀) ≡ s₁
        → s₁.samples ≡ s₀.samples
        → s₁.records ≡ s₀.records
        → same_order order (negsuc 0) ≡ false
        → IsRing s₁
        → s₁.samples ≤ length inputs
        → rounds order < length a
        → rounds order < length b
        → Filters s₀ inputs order g
    unfolding filter
    iir_total s₀ s₁ inputs order g e es er iir ring long ha hb =
        let counted = (s₁.samples_since_clear + 1) % 2 ^ 32 in
        let bn = (s₁.bn + 1) % s₁.records in
        let inside : bn < s₁.records = mod-lt (s₁.bn + 1) ring.some_records in
        let row = map num.of_int (take s₁.samples inputs) in
        let moved : Filter F = record s₁ {
          order_n = order;
          samples_since_clear = counted;
          bn = bn;
          xd = set s₁.xd bn row;
          yd = set s₁.yd bn (replicate s₁.samples num.null);
        } in
        let ring' : IsRing moved = record {
          some_records = ring.some_records;
          inside = inside;
          xs =
              set-IsBlock s₁.records s₁.samples bn s₁.xd row ring.xs (
                length-map num.of_int (take s₁.samples inputs)
                ∙ length-take s₁.samples inputs long);
          ys =
              set-IsBlock s₁.records s₁.samples bn s₁.yd (replicate s₁.samples num.null) ring.ys
                (length-replicate s₁.samples num.null);
        } in
        let (ys, ey, ly) =
          channels_total s₁.samples 0 (filter_channel num a b moved order)
            (λ n lt. channel_total moved order n ring' (omega arith) ha hb) in
        (
          record moved { yd = set moved.yd bn ys },
          map (λ y. num.to_int (num.times y g)) ys,
          rw
              (
                e,
                iir,
                lt→ltb 0 s₁.records ring.some_records,
                le→leb s₁.samples (length inputs) long,
                lt→ltb bn (length s₁.xd) (omega (arith, inside, ring.xs.0)),
                lt→ltb bn (length s₁.yd) (omega (arith, inside, ring.ys.0)),
                ey,
              )
              refl,
          length-map (λ y. num.to_int (num.times y g)) ys ∙ ly ∙ es,
          es,
          er,
          record {
            some_records = ring.some_records;
            inside = inside;
            xs = ring'.xs;
            ys = set-IsBlock s₁.records s₁.samples bn moved.yd ys ring'.ys ly;
          },
        )

    from_cleared :
        (s₀ s₁ : Filter F) (inputs : List ℤ) (order : ℤ) (g : F)
        → (if same_order s₀.order_n order then s₀ else clear_filter num s₀) ≡ s₁
        → s₁.samples ≡ s₀.samples
        → s₁.records ≡ s₀.records
        → IsRing s₁
        → s₁.samples ≤ length inputs
        → rounds order < length a
        → rounds order < length b
        → Filters s₀ inputs order g
    from_cleared s₀ s₁ inputs order g e es er ring long ha hb =
        elim (Bool-cases (same_order order (negsuc 0))) [
          | inl flat ↦ flat_total s₀ s₁ inputs order g e es er flat ring long
          | inr iir ↦ iir_total s₀ s₁ inputs order g e es er iir ring long ha hb
        ]

    -- On blocks with a row of `samples` numbers for each of at least one record, and a sample for each channel,
    -- `filter` reads and writes inside of them and gives a value for each channel, where the
    -- coefficients reach the order (below zero there is only the first of them). The blocks keep
    -- their shape, and the last record is one of theirs again.
    pub filter_total :
        (s : Filter F) (inputs : List ℤ) (order : ℤ) (g : F)
        → IsRing s
        → s.samples ≤ length inputs
        → rounds order < length a
        → rounds order < length b
        → (s' : Filter F) × (out : List ℤ) × (filter num a b s inputs order g ≡ ok (s', out))
          × (length out ≡ s.samples)
          × (s'.samples ≡ s.samples)
          × (s'.records ≡ s.records)
          × IsRing s'
    filter_total s inputs order g ring long ha hb = elim (Bool-cases (same_order s.order_n order)) [
      | inl same ↦ from_cleared s s inputs order g (rw same refl) refl refl ring long ha hb
      | inr other ↦
          from_cleared s (clear_filter num s) inputs order g (rw other refl) refl refl
            (clear_filter-IsRing num s ring.some_records) long ha hb
    ]
