-- ===== src/DataFile.antt =====
-- `SmurfDataFile` of include/smurftcp.h and src/smurf_processor.cpp: the files that packets are written
-- to. A call returns the system calls it makes, in order. `opened` is what `open` returns if this
-- call opens a file. Names are lists of characters.
-- The fields that no method reads are left out, and so are the 1024 characters of the names' buffers.
pub mod Parts
pub mod Calls
mod Tests
use smurf_processor.Prelude.{
  ℕ, suc, zero, ◌+◌, ◌*◌, ◌/◌, ◌%◌, ◌^◌, leb, ◌==◌, ◌&&◌, if◌then◌else◌, Bool, true, false, not,
  List, [], ◌∷◌, ◌++◌, Result, ok, ◌>>=◌,
}
use smurf_processor.Prelude.Strings.{same_name}
use smurf_processor.Prelude.Int.{ℤ, pos, negsuc, unsigned}
use smurf_processor.Config.{Config}
use smurf_processor.Packet.{Packet, write_to_file}
use smurf_processor.Packet.Getters.{get_disable_file_write_bit}

pub data FileCall : Type 0 where
  close_file : ℕ → FileCall
  unlink_file : List ℕ → FileCall
  open_file : List ℕ → ℤ → FileCall
  write_bytes : ℕ → List ℕ → FileCall

-- `fd` is zero where no file is open.
pub record DataFile : Type 0 where
  pub part : ℕ
  pub filename : List ℕ
  pub frame_counter : ℕ
  pub fd : ℕ

abbrev pub new_file : DataFile
new_file = record { part = 0; filename = []; frame_counter = 0; fd = 0 }

-- `sprintf(tmp, ".part_%05u", part_)` for the parts there are, which are below 99999
abbrev pub part_suffix : ℕ → List ℕ
part_suffix part =
    46
    ∷ 112
    ∷ 97
    ∷ 114
    ∷ 116
    ∷ 95
    ∷ (48 + part / 10000 % 10)
    ∷ (48 + part / 1000 % 10)
    ∷ (48 + part / 100 % 10)
    ∷ (48 + part / 10 % 10)
    ∷ (48 + part % 10)
    ∷ []

abbrev pub is_zero : ℤ → Bool
is_zero (pos n) = n == 0
is_zero (negsuc n) = false

-- `if (fd) close(fd); fd = 0;`
abbrev pub close_if_open : DataFile → List FileCall
close_if_open s = if s.fd == 0 then [] else close_file s.fd ∷ []

module _ {F : Type 0} (opened : ℤ) (config : Config F) where
  abbrev pub is_renamed : DataFile → Bool
  is_renamed s = is_zero config.file_name_extend && not (same_name config.data_file_name s.filename)

  abbrev pub next_name : DataFile → List ℕ
  next_name s =
      config.data_file_name ++ (if is_zero config.file_name_extend then [] else part_suffix s.part)

  -- From the change of name to the opening of a file
  abbrev pub ready : DataFile → DataFile × List FileCall
  ready s =
      let closing = if is_renamed s then close_if_open s else [] in
      let fd = if is_renamed s then 0 else s.fd in
      if fd == 0
      then (
        record s { filename = next_name s; fd = unsigned 32 opened },
        closing ++ unlink_file (next_name s) ∷ open_file (next_name s) opened ∷ [],
      )
      else (s, closing)

  -- The packet's bytes, and the end of a full file
  abbrev pub store_packet : DataFile → List ℕ → DataFile × List FileCall
  store_packet s bytes =
      let count = (s.frame_counter + 1) % 2 ^ 32 in
      if leb (unsigned 32 config.data_frames) count
      then (
        record s { part = (s.part + 1) % 99999; frame_counter = 0; fd = 0 },
        write_bytes s.fd bytes ∷ close_if_open s,
      )
      else (record s { frame_counter = count }, write_bytes s.fd bytes ∷ [])

  -- `write_file(packet, config)`: the new state, the system calls, and the number returned
  unfoldable pub write_file : DataFile → Packet → Result (DataFile × List FileCall × ℕ)
  write_file s packet = do
    disabled ← get_disable_file_write_bit packet
    let r = ready s
    let w = store_packet r.0 (write_to_file packet)
    if disabled
        then ok (record s { part = 0; frame_counter = 0; fd = 0 }, close_if_open s, 0)
        else if r.0.fd == 0
        then ok (r.0, r.1, 0)
        else ok (w.0, r.1 ++ w.1, w.0.frame_counter)
