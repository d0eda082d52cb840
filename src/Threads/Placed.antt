-- ===== src/Threads/Placed.antt =====
-- One reader's place in the ring, and a reader's lookup behind a change of the list.
use smurf_processor.Prelude.{
  ℕ, zero, suc, ◌≡◌, refl, ◌⊎◌, inl, inr, Option, none, some, List, [], ◌∷◌, get_elem?, set,
}
use smurf_processor.DataBuffer.{Reader}
use smurf_processor.DataBuffer.View.{Holds}
use smurf_processor.DataBuffer.Empty.{none-some}

-- Some number of packets waits for the reader.
abbrev pub IsPlaced : ℕ → ℕ → Reader → Type 0
IsPlaced size w r = (n : ℕ) × Holds size w n r

pub Option-cases {ℓ} : {A : Type ℓ} (o : Option A) → (o ≡ none) ⊎ ((a : A) × (o ≡ some a))
Option-cases none = inl refl
Option-cases (some a) = inr (a, refl)

pub set_found :
    (rs : List Reader) (i : ℕ) (r r' : Reader)
    → get_elem? rs i ≡ some r
    → get_elem? (set rs i r') i ≡ some r'
set_found [] i r r' e = absurd (none-some e)
set_found (x ∷ rs) zero r r' e = refl
set_found (x ∷ rs) (suc i) r r' e = set_found rs i r r' e
