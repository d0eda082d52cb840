-- ===== src/Unwrap.antt =====
-- The unwrapping loop of `runThread` and `read_mask`, src/smurf_processor.cpp, with the
-- constants of include/smurf2mce.h.
pub mod Track
pub mod Channels
pub mod Bounds
mod Tests
use smurf_processor.Prelude.{
  ℕ, zero, suc, fault, ◌+◌, ◌-◌, ◌^◌, ltb, leb, if◌then◌else◌, Bool, true, false, ◌&&◌, List, [],
  ◌∷◌, Option, none, some, Result, ok, within, ◌>>=◌, ◌>>◌, length, get_or,
}
use smurf_processor.Prelude.Int.{ℤ, pos, negsuc, ◌+ℤ◌, ◌-ℤ◌, ltb_ℤ, pos_part, neg_part}

abbrev pub smurf_raw_samples : ℕ
smurf_raw_samples = 4096

abbrev pub wrap_start : ℤ
wrap_start = pos 0

abbrev pub upper_unwrap : ℤ
upper_unwrap = pos 0x6000

abbrev pub lower_unwrap : ℤ
lower_unwrap = negsuc (0x6000 - 1)

-- The value of a signed 32-bit expression; an overflow is undefined.
abbrev pub int32 : ℤ → Result ℤ
int32 z = within (ltb (pos_part z) (2 ^ 31) && leb (neg_part z) (2 ^ 31)) >> ok z

-- The wrap counter of a channel that was at `p` and is at `d`
unfoldable pub unwrap : ℤ → ℤ → ℤ → Result ℤ
unwrap wrap d p =
    if ltb_ℤ upper_unwrap d && ltb_ℤ p lower_unwrap
    then int32 (wrap -ℤ pos 0x10000)
    else if ltb_ℤ d lower_unwrap && ltb_ℤ upper_unwrap p
    then int32 (wrap +ℤ pos 0x10000)
    else ok wrap

-- One round of the loop: the channel's wrap counter and its input sample
unfoldable pub unwrap_sample : ℤ → ℤ → ℤ → Result (ℤ × ℤ)
unwrap_sample wrap d p = do w ← unwrap wrap d p; x ← int32 (d +ℤ w); ok (w, x)

-- The rounds that are left of the loop over `mask`, `wrap_counter` and `input_data`, from the current samples `d` and
-- the last ones `p`. A bad mask ends it, and the channels behind keep what they had.
unfoldable pub unwrap_samples :
    ℕ → List ℤ → List ℤ → List ℕ → List ℤ → List ℤ → Result (List ℤ × List ℤ)
unwrap_samples zero d p mask wraps inputs = ok (wraps, inputs)
unwrap_samples (suc left) d p (dctr ∷ mask) (wrap ∷ wraps) (x ∷ inputs) =
    let rest = unwrap_samples left d p mask wraps inputs in
    if ltb 4095 dctr
    then ok (wrap ∷ wraps, x ∷ inputs)
    else (within (ltb dctr (length d) && ltb dctr (length p))
        >> unwrap_sample wrap (get_or d dctr (pos 0)) (get_or p dctr (pos 0))
        >>= λ one. rest >>= λ r. ok (one.0 ∷ r.0, one.1 ∷ r.1))
unwrap_samples (suc left) d p mask wraps inputs = fault

-- The loop of `read_mask` over the mask and the numbers that `fscanf` reads before it fails
unfoldable pub mask_values : List ℕ → List ℕ → List ℕ
mask_values (old ∷ mask) (m ∷ values) =
    (if ltb m smurf_raw_samples then m else 0) ∷ mask_values mask values
mask_values mask values = mask

-- `read_mask`; the file is absent where `fopen` fails.
abbrev pub read_mask : Option (List ℕ) → List ℕ → List ℕ
read_mask none mask = mask
read_mask (some values) mask = mask_values mask values
