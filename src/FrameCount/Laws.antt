-- ===== src/FrameCount/Laws.antt =====
-- What the frame counters say of the sequence of frames that came.
use smurf_processor.Prelude.{
  ℕ, ◌+◌, ◌-◌, ◌*◌, ◌^◌, ◌<◌, ◌≡◌, refl, true, false, List, [], ◌∷◌, arith, length, All,
}
use smurf_processor.FrameCount.{FrameCount, new_count, count_number, count_numbers}

-- Numbers of 32 bits that rise from `prev`, and the last of them
abbrev pub Rises : ℕ → List ℕ → Type 0
Rises prev [] = Unit
Rises prev (n ∷ numbers) = (prev < n) × (n < 2 ^ 32) × Rises n numbers

abbrev pub last : ℕ → List ℕ → ℕ
last prev [] = prev
last prev (n ∷ numbers) = last n numbers

-- Numbers of 32 bits
abbrev pub AllWords : List ℕ → Type 0
AllWords numbers = All (λ n. n < 2 ^ 32) numbers

-- The state after one frame above the last one
abbrev risen : FrameCount → ℕ → FrameCount
risen s n = record s {
  frame_number = n;
  frame_rx_cnt = s.frame_rx_cnt + 1;
  frame_loss_cnt = s.frame_loss_cnt + (n - s.frame_number - 1);
}

in_order :
    (s : FrameCount) (n : ℕ)
    → s.first_frame ≡ false
    → s.frame_number < n
    → n < 2 ^ 32
    → s.frame_rx_cnt + 1 < 2 ^ 64
    → s.frame_loss_cnt + 2 ^ 32 < 2 ^ 64
    → count_number s n ≡ (risen s n, true)
unfolding count_number
in_order s n started above word rx loss = ground arith

rises_lem :
    (numbers : List ℕ) (s : FrameCount)
    → s.first_frame ≡ false
    → Rises s.frame_number numbers
    → s.frame_rx_cnt + length numbers < 2 ^ 64
    → s.frame_loss_cnt + 2 ^ 32 * length numbers < 2 ^ 64
    → (let s' = count_numbers s numbers in
        (s'.frame_rx_cnt ≡ s.frame_rx_cnt + length numbers)
        × (s'.frame_out_order_cnt ≡ s.frame_out_order_cnt)
        × (s'.frame_loss_cnt + length numbers + s.frame_number
            ≡ s.frame_loss_cnt + last s.frame_number numbers))
unfolding count_numbers
rises_lem [] s started rises rx loss = (omega arith, refl, omega arith)
rises_lem (n ∷ numbers) s started rises rx loss =
    let rest =
      rises_lem numbers (risen s n) started rises.2 (omega arith)
        (omega (arith, rises.0, rises.1)) in
    rw (count_numbers, in_order s n started rises.0 rises.1 (omega arith) (omega arith))
      (omega (arith, rest.0), rest.1, omega (arith, rest.2, rises.0))

-- For frames whose 32-bit numbers rise from the first one's, all are counted as received and none as out
-- of order, and the received and the lost ones add up to the numbers from the first to the last: exactly
-- the missing numbers are counted as lost. (So many frames that no counter wraps around are left out.)
pub count_numbers-Rises :
    (first : ℕ) (numbers : List ℕ)
    → Rises first numbers
    → 2 ^ 32 * length numbers + 1 < 2 ^ 64
    → (let s = count_numbers new_count (first ∷ numbers) in
        (s.frame_rx_cnt ≡ length numbers + 1)
        × (s.frame_out_order_cnt ≡ 0)
        × (s.frame_rx_cnt + s.frame_loss_cnt + first ≡ last first numbers + 1))
unfolding count_numbers count_number
count_numbers-Rises first numbers rises few =
    let rest =
      rises_lem numbers
        (record new_count { frame_number = first; first_frame = false; frame_rx_cnt = 1 }) refl
        rises (omega arith) (omega arith) in
    (omega (arith, rest.0), rest.1, omega (arith, rest.0, rest.2))

one_frame :
    (s : FrameCount) (n : ℕ)
    → s.frame_rx_cnt + s.frame_out_order_cnt + 1 < 2 ^ 64
    → (let s' = (count_number s n).0 in
        s'.frame_rx_cnt + s'.frame_out_order_cnt ≡ s.frame_rx_cnt + s.frame_out_order_cnt + 1)
unfolding count_number
one_frame s n few = ground arith

-- Whatever the frames' numbers are, each frame is counted once: the received and the out-of-order
-- frames add up to all of them, below the counters' wrap-around.
count_numbers_total :
    (numbers : List ℕ) (s : FrameCount)
    → s.frame_rx_cnt + s.frame_out_order_cnt + length numbers < 2 ^ 64
    → (let s' = count_numbers s numbers in
        s'.frame_rx_cnt + s'.frame_out_order_cnt
        ≡ s.frame_rx_cnt + s.frame_out_order_cnt + length numbers)
unfolding count_numbers
count_numbers_total [] s few = omega arith
count_numbers_total (n ∷ numbers) s few =
    let one = one_frame s n (omega arith) in
    let rest = count_numbers_total numbers (count_number s n).0 (omega (arith, one)) in
    omega (arith, one, rest)

-- After frame `b` was processed, a late frame `a` below it is discarded and counted as out of order, and
-- the next frame, `b + 1`, which follows `b` with none missing, adds `b - a` to the lost frames. A second
-- frame `b` adds 2 ^ 32 - 1 to them. (Below the counters' wrap-around.)
pub late_frame_loss :
    (s : FrameCount) (a : ℕ)
    → s.first_frame ≡ false
    → a < s.frame_number
    → s.frame_number + 1 < 2 ^ 32
    → s.frame_loss_cnt + 2 ^ 32 < 2 ^ 64
    → s.frame_out_order_cnt + 1 < 2 ^ 64
    → (let late = count_numbers s (a ∷ (s.frame_number + 1) ∷ []) in
        (late.frame_out_order_cnt ≡ s.frame_out_order_cnt + 1)
        × (late.frame_loss_cnt ≡ s.frame_loss_cnt + (s.frame_number - a)))
      × ((count_numbers s (s.frame_number ∷ [])).frame_loss_cnt ≡ s.frame_loss_cnt + (2 ^ 32 - 1))
unfolding count_numbers count_number
late_frame_loss s a started below room few few' = (ground arith, ground arith)
