-- ===== src/Threads/Steps.antt =====
-- The threads around the ring one step after the other: `getWritePtr` and `getReadPtr` are a step each, a thread uses
-- the slot that it was given until it calls `doneWriting` or `doneReading`, and of those two each statement is a
-- step. The others go on in between, since the code takes no lock there.
use smurf_processor.Prelude.{
  ℕ, ◌≡◌, ◌==◌, if◌then◌else◌, Bool, false, List, [], ◌∷◌, Option, none, some, ok, throw,
  runtime_error,
}
use smurf_processor.DataBuffer.{DataBuffer, get_write_ptr, fill, get_read_ptr}
use smurf_processor.Threads.Parts.{Part, Flow, act, writing_parts, reading_parts}

-- `writing` and `reading i` are the slots that the writer and the reader `i` have in hand, `write_ending` and
-- `read_ending i` the statements that are left of their last calls, and `matched i` is what the reader's
-- comparison gave.
pub record System {ℓ} (A : Type ℓ) : Type ℓ where
  pub ring : DataBuffer A
  pub writing : Option ℕ
  pub write_ending : List (Part A)
  pub reading : ℕ → Option ℕ
  pub read_ending : ℕ → List (Part A)
  pub matched : ℕ → Bool

-- Another value for one reader
abbrev pub for_reader {ℓ} : {B : Type ℓ} → (ℕ → B) → ℕ → B → ℕ → B
for_reader f i x j = if j == i then x else f j

module _ {ℓ} {A : Type ℓ} where
  pub data Step (s : System A) : System A → Type ℓ where
    begin_write :
        {d : DataBuffer A} {slot : ℕ}
        → s.writing ≡ none
        → s.write_ending ≡ []
        → get_write_ptr s.ring ≡ ok (d, slot)
        → Step s (record s { ring = d; writing = some slot })
    store :
        {slot : ℕ} (a : A) → s.writing ≡ some slot → Step s (record s { ring = fill s.ring slot a })
    end_write :
        {slot : ℕ}
        → s.writing ≡ some slot
        → Step s (record s { writing = none; write_ending = writing_parts })
    write_part :
        {p : Part A} {ps : List (Part A)} {f : Flow A}
        → s.write_ending ≡ p ∷ ps
        → act 0 p (record { ring = s.ring; matched = false }) ≡ ok f
        → Step s (record s { ring = f.ring; write_ending = ps })
    begin_read :
        (i : ℕ) {d : DataBuffer A} {slot : ℕ}
        → s.reading i ≡ none
        → s.read_ending i ≡ []
        → get_read_ptr s.ring i ≡ (d, ok slot)
        → Step s (record s { ring = d; reading = for_reader s.reading i (some slot) })
    miss_read :
        (i : ℕ) {d : DataBuffer A}
        → s.reading i ≡ none
        → s.read_ending i ≡ []
        → get_read_ptr s.ring i ≡ (d, throw runtime_error)
        → Step s (record s { ring = d })
    end_read :
        (i : ℕ) {slot : ℕ}
        → s.reading i ≡ some slot
        → Step s (record s {
          reading = for_reader s.reading i none;
          read_ending = for_reader s.read_ending i reading_parts;
        })
    read_part :
        (i : ℕ) {p : Part A} {ps : List (Part A)} {f : Flow A}
        → s.read_ending i ≡ p ∷ ps
        → act i p (record { ring = s.ring; matched = s.matched i }) ≡ ok f
        → Step s (record s {
          ring = f.ring;
          read_ending = for_reader s.read_ending i ps;
          matched = for_reader s.matched i f.matched;
        })
