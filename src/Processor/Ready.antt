-- ===== src/Processor/Ready.antt =====
-- The state between two frames: what makes every access of the next step one inside its array.
use smurf_processor.Prelude.{
  ℕ, ◌+◌, ◌<◌, ◌≡◌, refl, ◌==◌, Bool-cases, inl, inr, List, Result, ok, ◌>>=◌, length, All,
}
use smurf_processor.Prelude.Int.{ℤ}
use smurf_processor.Prelude.Bytes.{IsBytes}
use smurf_processor.Filter.{Filter}
use smurf_processor.Filter.Block.{IsRing}
use smurf_processor.DataBuffer.{DataBuffer}
use smurf_processor.Packet.{Packet}
use smurf_processor.Config.{Config}
use smurf_processor.Config.Usable.{IsUsable}
use smurf_processor.Unwrap.Bounds.{IsWithin, wider}
use smurf_processor.Processor.{Processor, buffer, buffer_last, with_buffer}
use smurf_processor.Processor.Reading.{Succeeds}

-- A call returns a value, and the value has a property.
abbrev pub Gives {ℓ κ} : {A : Type ℓ} → (A → Type κ) → Result A → Type (ℓ ⊔ κ)
Gives {A = A} P r = (a : A) × (r ≡ ok a) × P a

pub bind-Gives {ℓ κ ℓ' κ'} :
    {A : Type ℓ} {B : Type ℓ'} (P : A → Type κ) (Q : B → Type κ') (m : Result A) (f : A → Result B)
    → Gives P m
    → ((a : A) → P a → Gives Q (f a))
    → Gives Q (m >>= f)
bind-Gives P Q m f g each = let (b, e, q) = each g.0 g.2 in (b, rw g.1 e, q)

pub read_then {ℓ κ ℓ'} :
    {A : Type ℓ} {B : Type ℓ'} (Q : B → Type κ) (m : Result A) (f : A → Result B)
    → Succeeds m
    → ((a : A) → Gives Q (f a))
    → Gives Q (m >>= f)
read_then Q m f s each = let (b, e, q) = each s.0 in (b, rw s.1 e, q)

-- The memory of one of the two buffers
abbrev pub IsRoom : List ℕ → Type 0
IsRoom b = IsBytes b × (length b ≡ 0x8000)

-- The arrays and the filter's blocks have their sizes, the mask is one of raw samples, a packet has room in the ring, and
-- no wrap counter is more than `k` wraps from zero.
pub record IsSound {F : Type 0} (k : ℕ) (b0 b1 mask : List ℕ) (wraps : List ℤ) (tes_bias : List ℕ)
    (filter : Filter F) (input_data : List ℤ) (config : Config F) (write_ptr size : ℕ)
    : Type 0 where
  pub first : IsRoom b0
  pub second : IsRoom b1
  pub masked : All (λ m. m < 4096) mask
  pub mask_size : length mask ≡ 528
  pub near : All (IsWithin k) wraps
  pub wraps_size : length wraps ≡ 528
  pub inputs_size : length input_data ≡ 528
  pub bias : IsBytes tes_bias
  pub bias_size : length tes_bias ≡ 40
  pub channels : filter.samples ≡ 528
  pub cells : IsRing filter × (filter.records ≡ 16)
  pub usable : IsUsable config
  pub ring : write_ptr < size

abbrev pub IsReady : {F : Type 0} → ℕ → Processor F → Type 0
IsReady k s =
    IsSound k s.b0 s.b1 s.mask s.wrap_counter s.tes_bias s.filter s.input_data s.config
      s.tx_buffer.write_ptr s.tx_buffer.size

-- What the parts behind the filter leave as it was
abbrev pub IsHeld : {F : Type 0} → Processor F → Processor F → Type 0
IsHeld s s' = (s'.bufn ≡ s.bufn) × (s'.b0 ≡ s.b0) × (s'.b1 ≡ s.b1) × (s'.tx_buffer ≡ s.tx_buffer)

abbrev pub Next : {F : Type 0} → ℕ → Processor F → Processor F → Type 0
Next k s s' = IsReady k s' × IsHeld s s'

module _ {F : Type 0} where
  pub held : (s : Processor F) → IsHeld s s
  held s = (refl, refl, refl, refl)

  pub buffer-IsHeld : (s s' : Processor F) → IsHeld s s' → buffer s' ≡ buffer s
  buffer-IsHeld s s' h = rw (h.0, h.1, h.2) refl

  pub buffer-IsRoom : (k : ℕ) (s : Processor F) → IsReady k s → IsRoom (buffer s)
  buffer-IsRoom k s ready = elim (Bool-cases (s.bufn == 0)) [
    | inl e ↦ rw e ready.second
    | inr e ↦ rw e ready.first
  ]

  pub buffer_last-IsRoom : (k : ℕ) (s : Processor F) → IsReady k s → IsRoom (buffer_last s)
  buffer_last-IsRoom k s ready = elim (Bool-cases (s.bufn == 0)) [
    | inl e ↦ rw e ready.first
    | inr e ↦ rw e ready.second
  ]

  pub with_buffer-IsReady :
      (k : ℕ) (s : Processor F) (buf : List ℕ)
      → IsRoom buf
      → IsReady k s
      → IsReady k (with_buffer s buf)
  with_buffer-IsReady k s buf room ready = record {
    first = elim (Bool-cases (s.bufn == 0)) [ inl e ↦ rw e ready.first | inr e ↦ rw e room ];
    second = elim (Bool-cases (s.bufn == 0)) [ inl e ↦ rw e room | inr e ↦ rw e ready.second ];
    masked = ready.masked;
    mask_size = ready.mask_size;
    near = ready.near;
    wraps_size = ready.wraps_size;
    inputs_size = ready.inputs_size;
    bias = ready.bias;
    bias_size = ready.bias_size;
    channels = ready.channels;
    cells = ready.cells;
    usable = ready.usable;
    ring = ready.ring;
  }

  pub buffer-with_buffer : (s : Processor F) (buf : List ℕ) → buffer (with_buffer s buf) ≡ buf
  buffer-with_buffer s buf = elim (Bool-cases (s.bufn == 0)) [
    | inl e ↦ rw e refl
    | inr e ↦ rw e refl
  ]

  pub buffer_last-with_buffer :
      (s : Processor F) (buf : List ℕ) → buffer_last (with_buffer s buf) ≡ buffer_last s
  buffer_last-with_buffer s buf = elim (Bool-cases (s.bufn == 0)) [
    | inl e ↦ rw e refl
    | inr e ↦ rw e refl
  ]

  -- New settings, a new mask, and new wrap counters
  pub renewed :
      (k l : ℕ) (s : Processor F) (config : Config F) (mask : List ℕ) (wraps inputs : List ℤ)
      → IsUsable config
      → All (λ m. m < 4096) mask
      → All (IsWithin l) wraps
      → length mask ≡ 528
      → length wraps ≡ 528
      → length inputs ≡ 528
      → IsReady k s
      → IsReady l
          (record s { config = config; mask = mask; wrap_counter = wraps; input_data = inputs })
  renewed k l s config mask wraps inputs usable masked near masks counters samples ready = record {
    first = ready.first;
    second = ready.second;
    masked = masked;
    mask_size = masks;
    near = near;
    wraps_size = counters;
    inputs_size = samples;
    bias = ready.bias;
    bias_size = ready.bias_size;
    channels = ready.channels;
    cells = ready.cells;
    usable = usable;
    ring = ready.ring;
  }

  pub wider-IsReady : (k : ℕ) (s : Processor F) → IsReady k s → IsReady (k + 1) s
  wider-IsReady k s ready =
      renewed k (k + 1) s s.config s.mask s.wrap_counter s.input_data ready.usable ready.masked
        (wider k s.wrap_counter ready.near) ready.mask_size ready.wraps_size ready.inputs_size ready

  pub put-IsReady :
      (k : ℕ) (s : Processor F) (ring : DataBuffer Packet)
      → ring.write_ptr < ring.size
      → IsReady k s
      → IsReady k (record s { tx_buffer = ring })
  put-IsReady k s ring room ready = record {
    first = ready.first;
    second = ready.second;
    masked = ready.masked;
    mask_size = ready.mask_size;
    near = ready.near;
    wraps_size = ready.wraps_size;
    inputs_size = ready.inputs_size;
    bias = ready.bias;
    bias_size = ready.bias_size;
    channels = ready.channels;
    cells = ready.cells;
    usable = ready.usable;
    ring = room;
  }

  pub new_filter-IsReady :
      (k : ℕ) (s : Processor F) (f : Filter F)
      → f.samples ≡ 528
      → IsRing f × (f.records ≡ 16)
      → IsReady k s
      → IsReady k (record s { filter = f })
  new_filter-IsReady k s f channels cells ready = record {
    first = ready.first;
    second = ready.second;
    masked = ready.masked;
    mask_size = ready.mask_size;
    near = ready.near;
    wraps_size = ready.wraps_size;
    inputs_size = ready.inputs_size;
    bias = ready.bias;
    bias_size = ready.bias_size;
    channels = channels;
    cells = cells;
    usable = ready.usable;
    ring = ready.ring;
  }
