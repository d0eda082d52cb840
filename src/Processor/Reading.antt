-- ===== src/Processor/Reading.antt =====
-- Every field of a buffer with a header's room can be read and written.
use smurf_processor.Prelude.{
  ℕ, ◌+◌, ◌≤◌, ◌<◌, ◌≡◌, refl, List, Result, ok, ◌>>=◌, arith, length, take, le→leb, take-all,
}
use smurf_processor.Prelude.Bytes.{
  IsBytes, word, write, store_in, le_bytes, length-le_bytes, le_bytes-IsBytes, length-write,
  write-IsBytes,
}
use smurf_processor.Header.{
  pull_bit_field, get_frame_counter, get_test_mode, get_syncword, get_test_parameter, get_clear_bit,
  read_config_file, get_1hz_counter, get_epics_seconds, get_epics_nanoseconds, put_field,
  set_num_channels,
}
use smurf_processor.Timing.{ValidCheck, run}
use smurf_processor.Header.Fields.{pull_bit_field_lem}
use smurf_processor.Header.Averaging.{IsFrame}

-- The call returns a value.
abbrev pub Succeeds {ℓ} : {A : Type ℓ} → Result A → Type ℓ
Succeeds {A = A} r = (a : A) × (r ≡ ok a)

pub bind-Succeeds {ℓ κ} :
    {A : Type ℓ} {B : Type κ} (m : Result A) (f : A → Result B)
    → Succeeds m
    → ((a : A) → Succeeds (f a))
    → Succeeds (m >>= f)
bind-Succeeds m f s each = let (b, e) = each s.0 in (b, rw s.1 e)

-- What the processor reads of a header
pub record IsReadable (junk : ℕ) (h : List ℕ) : Type 0 where
  pub frame : Succeeds (get_frame_counter junk h)
  pub mode : Succeeds (get_test_mode junk h)
  pub sync : Succeeds (get_syncword junk h)
  pub parameter : Succeeds (get_test_parameter junk h)
  pub clear : Succeeds (get_clear_bit junk h)
  pub config : Succeeds (read_config_file junk h)
  pub hz : Succeeds (get_1hz_counter junk h)
  pub seconds : Succeeds (get_epics_seconds junk h)
  pub nanoseconds : Succeeds (get_epics_nanoseconds junk h)

module _ (junk : ℕ) (h : List ℕ) (frame : IsFrame h) where
  pub pull :
      (offset width : ℕ)
      → offset + width ≤ 128
      → width < 8
      → pull_bit_field junk h offset width ≡ ok (word width h offset)
  pull offset width room lt =
      (pull_bit_field_lem junk h offset width frame.0 (omega (arith, frame.1))).0 lt

  pub IsFrame-IsReadable : IsReadable junk h
  unfolding get_frame_counter get_test_mode get_syncword get_test_parameter get_clear_bit
      read_config_file get_1hz_counter get_epics_seconds get_epics_nanoseconds
  IsFrame-IsReadable = record {
    frame = bind-Succeeds _ _ (word 4 h 84, pull 84 4 (omega arith) (omega arith)) (λ x. (_, refl));
    mode =
        bind-Succeeds _ _
          (bind-Succeeds _ _ (word 2 h 104, pull 104 2 (omega arith) (omega arith))
            (λ x. (_, refl)))
          (λ x. (_, refl));
    sync = bind-Succeeds _ _ (word 5 h 96, pull 96 5 (omega arith) (omega arith)) (λ x. (_, refl));
    parameter =
        bind-Succeeds _ _ (word 1 h 105, pull 105 1 (omega arith) (omega arith)) (λ x. (_, refl));
    clear =
        bind-Succeeds _ _ (word 2 h 104, pull 104 2 (omega arith) (omega arith)) (λ x. (_, refl));
    config =
        bind-Succeeds _ _ (word 2 h 104, pull 104 2 (omega arith) (omega arith)) (λ x. (_, refl));
    hz = bind-Succeeds _ _ (word 4 h 64, pull 64 4 (omega arith) (omega arith)) (λ x. (_, refl));
    seconds =
        bind-Succeeds _ _ (word 4 h 76, pull 76 4 (omega arith) (omega arith)) (λ x. (_, refl));
    nanoseconds =
        bind-Succeeds _ _ (word 4 h 72, pull 72 4 (omega arith) (omega arith)) (λ x. (_, refl));
  }

-- The buffer `h'` is `h` with other bytes in some places.
pub record Keeps (h h' : List ℕ) : Type 0 where
  pub size : length h' ≡ length h
  pub bytes : IsBytes h'

pub put_field-Keeps :
    (h : List ℕ) (offset width : ℕ) (bs : List ℕ)
    → IsBytes h
    → IsBytes bs
    → length bs ≡ width
    → offset + width ≤ length h
    → (put_field h offset width bs ≡ ok (write h offset bs)) × Keeps h (write h offset bs)
unfolding put_field
put_field-Keeps h offset width bs bytes fresh fits room =
    let whole : take width bs ≡ bs = take-all width bs fits in
    (
      rw (le→leb width (length bs) (omega arith), whole) (store_in h offset bs (omega arith)),
      record { size = length-write bs h offset; bytes = write-IsBytes bs h offset fresh bytes },
    )

pub set_num_channels-Keeps :
    (h : List ℕ) (n : ℕ)
    → IsBytes h
    → 8 ≤ length h
    → (set_num_channels h n ≡ ok (write h 4 (le_bytes 4 n))) × Keeps h (write h 4 (le_bytes 4 n))
unfolding set_num_channels
set_num_channels-Keeps h n bytes room =
    put_field-Keeps h 4 4 (le_bytes 4 n) bytes (le_bytes-IsBytes 4 n) (length-le_bytes 4 n) room

pub run-Succeeds :
    (junk : ℕ) (h : List ℕ) (unix : ℕ) (v : ValidCheck)
    → IsReadable junk h
    → Succeeds (run junk h unix v)
unfolding run
run-Succeeds junk h unix v readable = bind-Succeeds _ _ readable.seconds λ s.
    bind-Succeeds _ _ readable.nanoseconds λ n.
      bind-Succeeds _ _ readable.sync
        λ y. bind-Succeeds _ _ readable.hz λ z. bind-Succeeds _ _ readable.frame λ f. (_, refl)
