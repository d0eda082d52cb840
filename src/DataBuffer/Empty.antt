-- ===== src/DataBuffer/Empty.antt =====
-- What `isEmpty` says of a reader's queue.
use smurf_processor.Prelude.{ℕ, ◌≡◌, sym, ◌∙◌, ap, ◌==◌, none, some, List, ok, length, get_elem?}
use smurf_processor.DataBuffer.{DataBuffer, is_empty}
use smurf_processor.DataBuffer.Refine.{Represents, outside, inside, place}

pub none-some {ℓ} : {A : Type ℓ} {a : A} → none ≡ some a → ⊥
none-some e = cc

pub some-injective {ℓ} : {A : Type ℓ} {a b : A} → some a ≡ some b → a ≡ b
some-injective e = cc

pub is_empty-Represents {ℓ} :
    {A : Type ℓ} (d : DataBuffer A) (qs : List (List A)) (i : ℕ) (q : List A)
    → Represents d qs
    → get_elem? qs i ≡ some q
    → is_empty d i ≡ ok (length q == 0)
unfolding is_empty
is_empty-Represents d qs i q v e = elim (place i v.all_see) [
  | outside _ f ↦ absurd (none-some (sym f ∙ e))
  | inside r q' er eq s ↦
      rw (er, is_empty)
        (ap ok (s.holds.empty_flag ∙ ap (λ l. length l == 0) (some-injective (sym eq ∙ e))))
]
