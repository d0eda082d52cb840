-- ===== src/Filter/Tests.antt =====
-- A filter of order one on two channels, with whole numbers for doubles.
use smurf_processor.Prelude.{
  ℕ, ◌+◌, ◌-◌, ◌/◌, ◌*◌, ◌≡◌, refl, List, [], ◌∷◌, ok, arith, length, map,
}
use smurf_processor.Prelude.Int.{ℤ, pos, pos_part}
use smurf_processor.Filter.Average.{averages, flat_frames, flat_runs, flat_runs-averages}
use smurf_processor.Filter.{
  Arith, Filter, clear_filter, new_filter, filter, filter_channel, add_terms, channels,
}
use smurf_processor.Filter.Block.{IsRing, clear_filter-IsRing}
use smurf_processor.Filter.Total.{filter_total}
use smurf_processor.Filter.Refine.{filter_frames, all_filtered, filter_frames-filtered}

abbrev naturals : Arith ℕ
naturals = record {
  null = 0;
  plus = λ x y. x + y;
  minus = λ x y. x - y;
  times = λ x y. x * y;
  over = λ x y. x / y;
  of_int = pos_part;
  to_int = pos;
}

abbrev frames : List (List ℤ)
frames = (pos 2 ∷ pos 5 ∷ []) ∷ (pos 4 ∷ pos 5 ∷ []) ∷ (pos 6 ∷ pos 0 ∷ []) ∷ []

abbrev fresh : Filter ℕ
fresh = new_filter naturals 2 16

-- y(n) = x(n) + 3 x(n-1), on integers, and doubled
two_channels :
    filter_frames naturals (1 ∷ 0 ∷ []) (1 ∷ 3 ∷ []) 2 2 1 fresh frames
    ≡ ok ((pos 4 ∷ pos 10 ∷ []) ∷ (pos 20 ∷ pos 40 ∷ []) ∷ (pos 36 ∷ pos 30 ∷ []) ∷ [])
unfolding filter_frames filter filter_channel add_terms channels
two_channels = refl

filter_frames-filtered_example :
    filter_frames naturals (1 ∷ 0 ∷ []) (1 ∷ 3 ∷ []) 2 2 1 fresh frames
    ≡ ok (all_filtered naturals (1 ∷ 0 ∷ []) (1 ∷ 3 ∷ []) 2 2 1 [] frames)
filter_frames-filtered_example =
    filter_frames-filtered naturals (1 ∷ 0 ∷ []) (1 ∷ 3 ∷ []) 2 2 1 (omega arith) (omega arith)
      (omega arith) frames fresh refl refl refl (omega arith, (omega arith, (omega arith, tt)))

filter_total_example :
    (s' : Filter ℕ) × (out : List ℤ) × (filter naturals
        (1 ∷ 0 ∷ [])
        (1 ∷ 3 ∷ [])
        fresh
        (pos 2 ∷ pos 5 ∷ [])
        (pos 1)
        2
      ≡ ok (s', out))
    × (length out ≡ 2)
    × (s'.samples ≡ 2)
    × (s'.records ≡ 16)
    × IsRing s'
filter_total_example =
    filter_total naturals (1 ∷ 0 ∷ []) (1 ∷ 3 ∷ []) fresh (pos 2 ∷ pos 5 ∷ []) (pos 1) 2
      (clear_filter-IsRing naturals fresh (omega arith)) (omega arith) (omega arith) (omega arith)

-- Two averages, of three frames and of two
abbrev two_averages : List (List (List ℤ))
two_averages = frames ∷ ((pos 8 ∷ pos 1 ∷ []) ∷ (pos 2 ∷ pos 3 ∷ []) ∷ []) ∷ []

flat_values :
    flat_runs naturals [] [] 0 fresh two_averages
    ≡ ok (
        ((pos 2 ∷ pos 5 ∷ []) ∷ (pos 3 ∷ pos 5 ∷ []) ∷ (pos 4 ∷ pos 3 ∷ []) ∷ [])
        ∷ ((pos 8 ∷ pos 1 ∷ []) ∷ (pos 5 ∷ pos 2 ∷ []) ∷ [])
        ∷ [])
unfolding flat_runs flat_frames filter channels
flat_values = refl

flat_runs-averages_example :
    flat_runs naturals [] [] 0 (clear_filter naturals fresh) two_averages
    ≡ ok (map (averages naturals 2 []) two_averages)
flat_runs-averages_example = flat_runs-averages naturals 2 [] [] 0 two_averages fresh refl refl (
  (omega arith, (omega arith, (omega arith, (omega arith, tt)))),
  ((omega arith, (omega arith, (omega arith, tt))), tt),
)
