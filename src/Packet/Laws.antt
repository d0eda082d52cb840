-- ===== src/Packet/Laws.antt =====
-- Writing one word of the header, and what it leaves.
use smurf_processor.Prelude.{
  ℕ, ◌+◌, ◌%◌, ◌^◌, ◌≤◌, ◌<◌, ◌≡◌, refl, sym, ◌∙◌, ap, ◌≢◌, ◌⊎◌, List, ok, arith, length,
  length-replicate,
}
use smurf_processor.Prelude.Int.{pos}
use smurf_processor.Prelude.Bytes.{
  byte_at, IsBytes, word, write, le_bytes, load_in, store_in, length-le_bytes, length-write,
  le_bytes-IsBytes, write-IsBytes, word-write_self, word-write_apart, write_outside,
  replicate-IsBytes,
}
use smurf_processor.Packet.{
  Packet, IsValid, smurf_header_length, smurf_samples, new_packet, get_header_word, set_header_word,
}
use smurf_processor.Packet.Fields.{Field, offset, width, get_field, set_field}
use smurf_processor.Packet.Fields.Places.{field_fits, apart, width-pos}
use smurf_processor.Packet.Fields.Named.{get_field_lem, set_field_lem}

-- The default constructor makes a valid packet.
pub new_packet-IsValid : IsValid new_packet
unfolding new_packet
new_packet-IsValid = record {
  header_fixed = refl;
  payload_fixed = refl;
  packet_fixed = refl;
  header_room = refl;
  payload_room = length-replicate smurf_samples (pos 0);
  bytes = replicate-IsBytes smurf_header_length 0 (omega arith);
}

module _ (f : Field) {p : Packet} (v : IsValid p) where
  field_room : offset f + width f ≤ length p.header_buffer
  field_room = omega (arith, field_fits f, v.header_room, v.header_fixed)

  -- A getter of a valid packet succeeds with the word at the field's place.
  pub get_field-word : get_field f p ≡ ok (word (width f) p.header_buffer (offset f))
  get_field-word = get_field_lem f p ∙ reads
    where
      reads :
          get_header_word (width f) p (offset f) ≡ ok (word (width f) p.header_buffer (offset f))
      reads =
          unfold get_header_word in
          ground (arith, field_room, width-pos f, load_in (width f) p.header_buffer (offset f))

abbrev pub with_header : Packet → List ℕ → Packet
with_header p buf = record p { header_buffer = buf }

pub with_header-IsValid :
    {p : Packet} (buf : List ℕ)
    → IsValid p
    → length buf ≡ length p.header_buffer
    → IsBytes buf
    → IsValid (with_header p buf)
with_header-IsValid buf v e h = record {
  header_fixed = v.header_fixed;
  payload_fixed = v.payload_fixed;
  packet_fixed = v.packet_fixed;
  header_room = e ∙ v.header_room;
  payload_room = v.payload_room;
  bytes = h;
}

-- `p'` is `p` with one field set.
pub record SetTo (p p' : Packet) (f : Field) (value : ℕ) : Type 0 where
  pub valid : IsValid p'
  pub own : get_field f p' ≡ ok (value % 256 ^ width f)
  pub others : (g : Field) → g ≢ f → get_field g p' ≡ get_field g p
  pub same_payload : p'.payload_buffer ≡ p.payload_buffer
  pub other_bytes :
      (k : ℕ)
      → (k < offset f) ⊎ (offset f + width f ≤ k)
      → byte_at p'.header_buffer k ≡ byte_at p.header_buffer k

-- On a valid packet every setter succeeds: its getter then returns the value, cut to the width of the
-- field, every other getter returns what it did, every byte of the header outside of the field and
-- the payload are as before, and the packet is valid again.
pub set_field-SetTo :
    (f : Field) (p : Packet) (value : ℕ)
    → IsValid p
    → (p' : Packet) × (set_field f p value ≡ ok p') × SetTo p p' f value
set_field-SetTo f p value v = (
  with_header p buf,
  set_field_lem f p value ∙ stores,
  record {
    valid = valid';
    own =
        get_field-word f valid'
        ∙ ap ok (word-write_self (width f) value p.header_buffer (offset f) room);
    others = λ g ne.
        get_field-word g valid'
        ∙ ap ok (
            word-write_apart (width g) (offset g) bs p.header_buffer (offset f)
              (omega (arith, apart g f ne, len)))
        ∙ sym (get_field-word g v);
    same_payload = refl;
    other_bytes =
        λ k away. write_outside bs p.header_buffer (offset f) k (omega (arith, away, len));
  },
)
  where
    bs : List ℕ
    bs = le_bytes (width f) value

    buf : List ℕ
    buf = write p.header_buffer (offset f) bs

    room : offset f + width f ≤ length p.header_buffer
    room = field_room f v

    len : length bs ≡ width f
    len = length-le_bytes (width f) value

    valid' : IsValid (with_header p buf)
    valid' =
        with_header-IsValid buf v (length-write bs p.header_buffer (offset f))
          (write-IsBytes bs p.header_buffer (offset f) (le_bytes-IsBytes (width f) value) v.bytes)

    stores : set_header_word (width f) p (offset f) value ≡ ok (with_header p buf)
    stores =
        unfold set_header_word in
        ground (arith, room, len, width-pos f, store_in p.header_buffer (offset f) bs)
