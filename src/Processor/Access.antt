-- ===== src/Processor/Access.antt =====
-- The short methods of `SmurfProcessor` in include/smurf_processor.h that other threads call. Those that read a
-- counter that nothing writes (`getCount`, ...) are left out.
use smurf_processor.Prelude.{
  ℕ, zero, suc, ◌/◌, ◌<◌, ◌≤◌, ◌≡◌, refl, Bool, List, [], ◌∷◌, some, arith, length, get_elem?,
}
use smurf_processor.Prelude.Int.{ℤ}
use smurf_processor.Packet.{smurf_samples}
use smurf_processor.FrameCount as FrameCount
use smurf_processor.Unwrap.{wrap_start}
use smurf_processor.Processor.{Processor}

-- `memset` of zeros over a number of whole counters
abbrev pub zeroed : ℕ → List ℤ → List ℤ
zeroed k [] = []
zeroed zero (x ∷ xs) = x ∷ xs
zeroed (suc k) (x ∷ xs) = wrap_start ∷ zeroed k xs

module _ {F : Type 0} where
  abbrev pub set_debug : Processor F → Bool → Processor F
  set_debug s debug = record s { debug = debug }

  abbrev pub get_frame_rx_cnt : Processor F → ℕ
  get_frame_rx_cnt s = s.count.frame_rx_cnt

  abbrev pub get_frame_loss_cnt : Processor F → ℕ
  get_frame_loss_cnt s = s.count.frame_loss_cnt

  abbrev pub get_frame_out_order_cnt : Processor F → ℕ
  get_frame_out_order_cnt s = s.count.frame_out_order_cnt

  abbrev pub clear_frame_cnt : Processor F → Processor F
  clear_frame_cnt s = record s { count = FrameCount.clear_frame_cnt s.count }

  -- The size is that of as many bytes as there are counters, which have four bytes each.
  abbrev pub clear_wrap : Processor F → Processor F
  clear_wrap s = record s { wrap_counter = zeroed (smurf_samples / 4) s.wrap_counter }

zeroed_lookup :
    (k : ℕ) (xs : List ℤ) (j : ℕ)
    → (j < k → j < length xs → get_elem? (zeroed k xs) j ≡ some wrap_start)
      × (k ≤ j → get_elem? (zeroed k xs) j ≡ get_elem? xs j)
zeroed_lookup k [] j = (λ below inside. absurd (omega arith), λ above. refl)
zeroed_lookup zero (x ∷ xs) j = (λ below inside. absurd (omega arith), λ above. refl)
zeroed_lookup (suc k) (x ∷ xs) zero = (λ below inside. refl, λ above. absurd (omega arith))
zeroed_lookup (suc k) (x ∷ xs) (suc j) =
    let rest = zeroed_lookup k xs j in
    (λ below inside. rest.0 (omega arith) (omega arith), λ above. rest.1 (omega arith))

-- `clear_wrap` clears the wrap counters of the first 132 channels only.
clear_wrap_lem :
    {F : Type 0} (s : Processor F) (j : ℕ)
    → (j < 132
        → j < length s.wrap_counter
        → get_elem? (clear_wrap s).wrap_counter j ≡ some wrap_start)
      × (132 ≤ j → get_elem? (clear_wrap s).wrap_counter j ≡ get_elem? s.wrap_counter j)
clear_wrap_lem s j = zeroed_lookup 132 s.wrap_counter j
