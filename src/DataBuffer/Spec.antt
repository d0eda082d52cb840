-- ===== src/DataBuffer/Spec.antt =====
-- What a ring of packets promises: each reader has a queue of its own, first in first out.
use smurf_processor.Prelude.{
  ℕ, ◌<◌, ◌==◌, if◌then◌else◌, Option, none, some, List, [], ◌∷◌, ◌++◌, map, Result, ok, throw,
  runtime_error, out_of_range, length, get_elem?, set, All,
}

-- What the two sides do in turn
pub data Op {ℓ} (A : Type ℓ) : Type ℓ where
  write : A → Op A
  read : ℕ → Op A

module _ {ℓ} {A : Type ℓ} where
  abbrev pub tail : List A → List A
  tail [] = []
  tail (x ∷ xs) = xs

  -- A reader that has `size` packets waiting loses the oldest.
  abbrev pub enqueue : ℕ → A → List A → List A
  enqueue size a q = (if length q == size then tail q else q) ++ (a ∷ [])

  abbrev pub dequeue : List A → Result A
  dequeue [] = throw runtime_error
  dequeue (x ∷ q) = ok x

  abbrev pub answer : Option (List A) → Result A
  answer none = throw out_of_range
  answer (some q) = dequeue q

  abbrev pub left_over : List (List A) → ℕ → Option (List A) → List (List A)
  left_over qs i none = qs
  left_over qs i (some q) = set qs i (tail q)

  abbrev pub read_queue : List (List A) → ℕ → Result A
  read_queue qs i = answer (get_elem? qs i)

  abbrev pub rest_queues : List (List A) → ℕ → List (List A)
  rest_queues qs i = left_over qs i (get_elem? qs i)

  -- What the reads return, in order
  unfoldable pub spec_run : List (List A) → List (Op A) → List (Result A)
  spec_run qs [] = []
  spec_run qs (write a ∷ ops) = spec_run (map (λ q. q ++ (a ∷ [])) qs) ops
  spec_run qs (read i ∷ ops) = read_queue qs i ∷ spec_run (rest_queues qs i) ops

  -- No reader has `size` packets waiting when one is written.
  abbrev pub KeepsUp : ℕ → List (List A) → List (Op A) → Type 0
  KeepsUp size qs [] = Unit
  KeepsUp size qs (write a ∷ ops) =
      All (λ q. length q < size) qs × KeepsUp size (map (λ q. q ++ (a ∷ [])) qs) ops
  KeepsUp size qs (read i ∷ ops) = KeepsUp size (rest_queues qs i) ops
