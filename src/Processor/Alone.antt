-- ===== src/Processor/Alone.antt =====
-- A step of the processor apart from the ring: what it does to the rest of the state, and the packet that it makes.
-- The ring has no part in it.
use smurf_processor.Prelude.{
  ℕ, ◌==◌, ◌≡◌, refl, sym, ◌∙◌, ap, if◌then◌else◌, Bool-cases, inl, inr, Option, none, some, List,
  [], ◌∷◌, Result, ok, throw, fault, ◌>>=◌,
}
use smurf_processor.Prelude.Int.{ℤ, unsigned}
use smurf_processor.Packet.{Packet, from_arrays}
use smurf_processor.Header as H
use smurf_processor.Filter.{Arith}
use smurf_processor.DataBuffer.{DataBuffer, write_packet}
use smurf_processor.FrameCount.{count_number}
use smurf_processor.Processor.{
  Round, Processor, buffer, receive, raw_data, unwrapped, filtered, cleared, configured, noted,
  averaged, stamped, sent, debugged, emit, process, step,
}

abbrev pub with_ring : {F : Type 0} → Processor F → DataBuffer Packet → Processor F
with_ring s d = record s { tx_buffer = d }

-- A packet that was made goes into the ring.
abbrev pub hand_over : {F : Type 0} → Processor F × Option Packet → Result (Processor F)
hand_over (s, none) = ok s
hand_over (s, some p) = write_packet s.tx_buffer p >>= λ d. ok (with_ring s d)

abbrev pub listed {ℓ} : {A : Type ℓ} → Option A → List A → List A
listed none xs = xs
listed (some x) xs = x ∷ xs

pub bind_under {ℓ κ μ} :
    {A : Type ℓ} {B : Type κ} {C : Type μ} (m : Result A) (f : A → Result B) (f' : A → Result C)
    (k : B → Result C)
    → ((a : A) → f' a ≡ (f a >>= k))
    → (m >>= f') ≡ ((m >>= f) >>= k)
bind_under (ok a) f f' k same = same a
bind_under (throw e) f f' k same = refl
bind_under fault f f' k same = refl

pub bind_back {ℓ κ} :
    {A : Type ℓ} {B : Type κ} (m : Result A) (g : A → B) (k : B → Result A)
    → ((a : A) → k (g a) ≡ ok a)
    → m ≡ ((m >>= λ a. ok (g a)) >>= k)
bind_back (ok a) g k back = sym (back a)
bind_back (throw e) g k back = refl
bind_back fault g k back = refl

pub bind_along {ℓ κ μ} :
    {A : Type ℓ} {A' : Type μ} {B : Type κ} (m : Result A) (m' : Result A') (w : A → A')
    (f : A → Result B) (f' : A' → Result B) (k : B → Result B)
    → m' ≡ (m >>= λ a. ok (w a))
    → ((a : A) → f' (w a) ≡ (f a >>= k))
    → (m' >>= f') ≡ ((m >>= f) >>= k)
bind_along (ok a) m' w f f' k e same = ap (λ r. r >>= f') e ∙ same a
bind_along (throw x) m' w f f' k e same = ap (λ r. r >>= f') e
bind_along fault m' w f f' k e same = ap (λ r. r >>= f') e

module _ {F : Type 0} (num : Arith F) (strtof : List ℕ → F) (sine : ℕ → ℕ → ℤ) (junk : ℕ) where
  unfoldable pub packet_of : Processor F → List ℤ → Result (Option Packet)
  packet_of s samples =
      let put = from_arrays (buffer s) samples >>= λ p. ok (some p) in
      if unsigned 32 s.config.data_frames == 0 then ok none else put

  unfoldable pub emit_packet : Round → Processor F → List ℤ → Result (Processor F × Option Packet)
  emit_packet r s samples = do
    (s₁, payload) ← averaged num strtof sine junk s samples
    s₂ ← stamped num strtof sine junk r (debugged num strtof sine junk s₁)
    out ← packet_of s₂ payload
    ok (s₂, out)

  unfoldable pub process_packet : Round → Processor F → Result (Processor F × Option Packet)
  process_packet r s = do
    s₁ ← raw_data num strtof sine junk r s
    s₂ ← unwrapped num strtof sine junk s₁
    (s₃, samples, cnt) ← filtered num strtof sine junk r s₂
    s₄ ← cleared num strtof sine junk s₃
    s₅ ← configured num strtof sine junk r s₄
    let quiet = noted num strtof sine junk s₅ >>= λ s'. ok (s', none)
    if cnt == 0 then quiet else emit_packet r s₅ samples

  unfoldable pub step_packet : Round → Processor F → Result (Processor F × Option Packet)
  step_packet r s₀ = do
    s ← receive r s₀
    number ← H.get_frame_counter junk (buffer s)
    let (count, accepted) = count_number s.count number
    let counted = record s { count = count }
    if accepted then process_packet r counted else ok (counted, none)

  -- The rounds one behind the other, and the packets that they make
  unfoldable pub run_packets : List Round → Processor F → Result (Processor F × List Packet)
  run_packets [] s = ok (s, [])
  run_packets (r ∷ rounds) s = step_packet r s >>= λ one.
      run_packets rounds one.0 >>= λ rest. ok (rest.0, listed one.1 rest.1)

  sent-packet_of :
      (s : Processor F) (samples : List ℤ)
      → sent num strtof sine junk s samples ≡ (packet_of s samples >>= λ out. hand_over (s, out))
  unfolding sent packet_of
  sent-packet_of s samples = elim (Bool-cases (unsigned 32 s.config.data_frames == 0)) [
    | inl e ↦ rw e refl
    | inr e ↦ rw e (
        bind_under (from_arrays (buffer s) samples) (λ p. ok (some p)) _ (λ out. hand_over (s, out))
          λ p. refl)
  ]

  emit-emit_packet :
      (r : Round) (s : Processor F) (samples : List ℤ)
      → emit num strtof sine junk r s samples ≡ (emit_packet r s samples >>= hand_over)
  unfolding emit emit_packet
  emit-emit_packet r s samples =
      bind_under (averaged num strtof sine junk s samples) _ _ hand_over λ out.
        bind_under (stamped num strtof sine junk r (debugged num strtof sine junk out.0)) _ _
          hand_over
          λ s₂.
            sent-packet_of s₂ out.1
            ∙ bind_under (packet_of s₂ out.1) (λ o. ok (s₂, o)) _ hand_over λ o. refl

  process-process_packet :
      (r : Round) (s : Processor F)
      → process num strtof sine junk r s ≡ (process_packet r s >>= hand_over)
  unfolding process process_packet
  process-process_packet r s = bind_under (raw_data num strtof sine junk r s) _ _ hand_over λ s₁.
      bind_under (unwrapped num strtof sine junk s₁) _ _ hand_over λ s₂.
        bind_under (filtered num strtof sine junk r s₂) _ _ hand_over λ out.
          bind_under (cleared num strtof sine junk out.0) _ _ hand_over λ s₄.
            bind_under (configured num strtof sine junk r s₄) _ _ hand_over λ s₅.
              elim (Bool-cases (out.2 == 0)) [
                | inl e ↦ rw e (
                    bind_back (noted num strtof sine junk s₅) (λ s'. (s', none)) hand_over
                      λ s'. refl)
                | inr e ↦ rw e (emit-emit_packet r s₅ out.1)
              ]

  pub step-step_packet :
      (r : Round) (s : Processor F)
      → step num strtof sine junk r s ≡ (step_packet r s >>= hand_over)
  unfolding step step_packet
  step-step_packet r s = bind_under (receive r s) _ _ hand_over λ s₁.
      bind_under (H.get_frame_counter junk (buffer s₁)) _ _ hand_over λ number.
        let out = count_number s₁.count number in
        elim (Bool-cases out.1) [
          | inl e ↦ rw e (process-process_packet r (record s₁ { count = out.0 }))
          | inr e ↦ rw e refl
        ]
