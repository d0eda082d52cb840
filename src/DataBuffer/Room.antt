-- ===== src/DataBuffer/Room.antt =====
-- A writer whose position is one of the ring's slots can write, and its next position is one too.
use smurf_processor.Prelude.{ℕ, ◌<◌, ◌≡◌, refl, lt→ltb, map, ok, arith}
use smurf_processor.DataBuffer.{
  DataBuffer, new_buffer, overrun, get_write_ptr, fill, done_writing, write_packet,
}

pub write_packet-room {ℓ} :
    {A : Type ℓ} (d : DataBuffer A) (a : A)
    → d.write_ptr < d.size
    → (d' : DataBuffer A) × (write_packet d a ≡ ok d') × (d'.write_ptr < d'.size)
unfolding write_packet get_write_ptr fill done_writing
write_packet-room d a inside =
    let moved = record d { readers = map overrun d.readers } in
    (
      done_writing (fill moved d.write_ptr a),
      rw (lt→ltb d.write_ptr d.size inside) refl,
      ground arith,
    )

pub new_buffer-room {ℓ} :
    {A : Type ℓ} (fresh : A) (buf_size num_readers : ℕ)
    → 0 < buf_size
    → (new_buffer fresh buf_size num_readers).write_ptr
      < (new_buffer fresh buf_size num_readers).size
unfolding new_buffer
new_buffer-room fresh buf_size num_readers some = some
