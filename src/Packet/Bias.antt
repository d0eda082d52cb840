-- ===== src/Packet/Bias.antt =====
-- The TES bias values inside of a packet's header.
use smurf_processor.Prelude.{ℕ, ◌+◌, ◌≤◌, ◌<◌, ◌≡◌, sym, ◌∙◌, ap, ◌≢◌, ok, ◌>>=◌, arith, length}
use smurf_processor.Prelude.Int.{ℤ, IsSigned}
use smurf_processor.Prelude.Bytes.{word_ext}
use smurf_processor.TesBias.{get_word}
use smurf_processor.TesBias.Layout.{start}
use smurf_processor.TesBias.Laws.{set_word-Stored, get_word-set_word, get_word-set_word_ne}
use smurf_processor.Packet.{Packet, IsValid}
use smurf_processor.Packet.Getters.{get_tes_bias}
use smurf_processor.Packet.Setters.{set_tes_bias}
use smurf_processor.Packet.Fields.{Field, offset, width, get_field}
use smurf_processor.Packet.Fields.Places.{apart-tes}
use smurf_processor.Packet.Laws.{get_field-word, with_header, with_header-IsValid}

-- On a valid packet, for an index below sixteen and a value of 20 bits, `setTESBias` succeeds and
-- `getTESBias` returns the value at that index and at any other what it returned before; every
-- other getter of the header returns what it returned before, and the packet is valid again.
pub set_tes_bias_lem :
    (p : Packet) (i : ℕ) (value : ℤ)
    → IsValid p
    → i < 16
    → IsSigned 20 value
    → (p' : Packet) × (set_tes_bias p i value ≡ ok p')
      × IsValid p'
      × (get_tes_bias p' i ≡ ok value)
      × ((j : ℕ) → j < 16 → j ≢ i → get_tes_bias p' j ≡ get_tes_bias p j)
      × ((f : Field) → get_field f p' ≡ get_field f p)
unfolding set_tes_bias get_tes_bias
set_tes_bias_lem p i value v lt s =
    let room : 49 ≤ length p.header_buffer = omega (arith, v.header_room, v.header_fixed) in
    let (buf, runs, st) =
      set_word-Stored p.header_buffer 8 i value lt v.bytes (unfold start in ground (arith, room)) in
    let valid' : IsValid (with_header p buf) = with_header-IsValid buf v st.same_length st.bytes in
    (
      with_header p buf,
      rw runs,
      valid',
      sym (ap (λ r. r >>= λ b. get_word b 8 i) runs)
          ∙ get_word-set_word p.header_buffer 8 i value lt v.bytes room s,
      λ j jt ne.
          sym (ap (λ r. r >>= λ b. get_word b 8 j) runs)
          ∙ get_word-set_word_ne p.header_buffer 8 i value lt v.bytes room j jt ne,
      λ f.
          get_field-word f valid'
          ∙ ap ok (
              word_ext (width f) buf p.header_buffer (offset f) (offset f) (λ k kt.
                st.outside (offset f + k) (unfold start in ground (arith, apart-tes f, lt))))
          ∙ sym (get_field-word f v),
    )
