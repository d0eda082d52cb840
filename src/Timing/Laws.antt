-- ===== src/Timing/Laws.antt =====
-- The smallest and largest change that a clock keeps, and the jumps it counts.
use smurf_processor.Prelude.{
  ℕ, ◌+◌, ◌-◌, ◌%◌, ◌^◌, ◌≤◌, ◌<◌, ◌≡◌, refl, ltb, ◌||◌, if◌then◌else◌, List, [], ◌∷◌, arith,
  length,
}
use smurf_processor.Timing.{Time, update}

-- The states of a clock over a sequence of values
unfoldable pub updates : Time → List ℕ → Time
updates t [] = t
updates t (v ∷ values) = updates (update t v).0 values

-- The values never go back, and change by less than 2 ^ 32 from each to the next.
abbrev pub Climbs : ℕ → List ℕ → Type 0
Climbs prev [] = Unit
Climbs prev (v ∷ values) = (prev ≤ v) × (v < prev + 2 ^ 32) × (v < 2 ^ 64) × Climbs v values

-- Every change from one value to the next lies between these.
abbrev pub Within : ℕ → ℕ → ℕ → List ℕ → Type 0
Within low high prev [] = Unit
Within low high prev (v ∷ values) = (low ≤ v - prev) × (v - prev ≤ high) × Within low high v values

-- The last value
abbrev pub last : ℕ → List ℕ → ℕ
last prev [] = prev
last prev (v ∷ values) = last v values

-- The number of changes above `most` or below `least`
abbrev pub jumps : ℕ → ℕ → ℕ → List ℕ → ℕ
jumps most least prev [] = 0
jumps most least prev (v ∷ values) =
    (if ltb most (v - prev) || ltb (v - prev) least then 1 else 0) + jumps most least v values

-- One update by a change below 2 ^ 32
one_update :
    (t : Time) (v : ℕ)
    → t.current ≤ v
    → v < t.current + 2 ^ 32
    → v < 2 ^ 64
    → t.error_count + 1 < 2 ^ 32
    → (let t' = (update t v).0 in
        (t'.mindelta ≤ v - t.current)
        × (v - t.current ≤ t'.maxdelta)
        × (t'.mindelta ≤ t.mindelta)
        × (t.maxdelta ≤ t'.maxdelta)
        × (t'.error_count
            ≡ t.error_count
              + (if ltb t.max_allowed_delta (v - t.current)
                    || ltb (v - t.current) t.min_allowed_delta
                  then 1
                  else 0)))
unfolding update
one_update t v up near fits few =
    let d : (v + 2 ^ 64 - t.current) % 2 ^ 64 ≡ v - t.current = omega arith in
    rw d (ground arith, ground arith, ground arith, ground arith, ground arith)

-- For values below 2 ^ 64 that never go back and change by less than 2 ^ 32 from each to the next, a clock keeps
-- the last value as its current one, bounds of all changes in `mindelta` and `maxdelta`, at or within which they were before, and adds to its errors
-- the number of changes out of the bounds that it allows (below that counter's wrap-around).
pub updates-Within :
    (values : List ℕ) (t : Time)
    → t.current < 2 ^ 64
    → Climbs t.current values
    → t.error_count + length values < 2 ^ 32
    → (let t' = updates t values in
        (t'.current ≡ last t.current values)
        × Within t'.mindelta t'.maxdelta t.current values
        × (t'.mindelta ≤ t.mindelta)
        × (t.maxdelta ≤ t'.maxdelta)
        × (t'.error_count
            ≡ t.error_count + jumps t.max_allowed_delta t.min_allowed_delta t.current values))
unfolding updates update
updates-Within [] t fits climbs few = (refl, tt, omega arith, omega arith, omega arith)
updates-Within (v ∷ values) t fits climbs few =
    let one = one_update t v climbs.0 climbs.1 climbs.2 (omega arith) in
    let rest = updates-Within values (update t v).0 climbs.2 climbs.3 (ground (arith, one.4)) in
    let t' = updates (update t v).0 values in
    (
      rest.0,
      (omega (arith, one.0, rest.2), omega (arith, one.1, rest.3), rest.1),
      omega (arith, one.2, rest.2),
      omega (arith, one.3, rest.3),
      omega (arith, one.4, rest.4),
    )
