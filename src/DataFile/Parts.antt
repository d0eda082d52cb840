-- ===== src/DataFile/Parts.antt =====
-- The parts that packets are written to: one file for `data_frames` packets.
use smurf_processor.Prelude.{
  ℕ, ◌+◌, ◌%◌, ◌<◌, ◌≡◌, ◌≢◌, refl, sym, ◌∙◌, ap, ==_of_ne, false, List, [], ◌∷◌, ◌++◌, map, Result,
  ok, throw, fault, ◌>>=◌, arith, length, All,
}
use smurf_processor.Prelude.Int.{ℤ, unsigned, unsigned32-lt}
use smurf_processor.Config.{Config}
use smurf_processor.Packet.{Packet, write_to_file}
use smurf_processor.Packet.Getters.{get_disable_file_write_bit}
use smurf_processor.DataFile.{
  FileCall, close_file, unlink_file, open_file, write_bytes, DataFile, is_zero, part_suffix, ready,
  store_packet, write_file,
}
use smurf_processor.DataFile.Calls.{write_files, write_file_runs, stored}

-- Packets whose bit is clear, each with what `open` would return
abbrev pub AllEnabled : List (ℤ × Packet) → Type 0
AllEnabled xs = All (λ x. get_disable_file_write_bit x.1 ≡ ok false) xs

abbrev pub with_config : {F : Type 0} → Config F → List (ℤ × Packet) → List (ℤ × Config F × Packet)
with_config config xs = map (λ x. (x.0, config, x.1)) xs

abbrev pub writes : ℕ → List (ℤ × Packet) → List FileCall
writes fd xs = map (λ x. write_bytes fd (write_to_file x.1)) xs

-- The state after a full file
abbrev pub ended : DataFile → DataFile
ended s = record s { part = (s.part + 1) % 99999; frame_counter = 0; fd = 0 }

-- What a run returns, behind a first call's calls and number, and behind two calls
abbrev joined :
    List FileCall
    → ℕ
    → DataFile × List FileCall × List ℕ
    → Result (DataFile × List FileCall × List ℕ)
joined calls n more = ok (more.0, calls ++ more.1, n ∷ more.2)

abbrev after :
    FileCall
    → FileCall
    → DataFile × List FileCall × List ℕ
    → Result (DataFile × List FileCall × List ℕ)
after a b out = ok (out.0, a ∷ b ∷ out.1, out.2)

behind :
    (a b : FileCall) (calls : List FileCall) (n : ℕ)
    (r : Result (DataFile × List FileCall × List ℕ))
    → (r >>= joined (a ∷ b ∷ calls) n) ≡ (r >>= joined calls n >>= after a b)
behind a b calls n (ok more) = refl
behind a b calls n (throw e) = refl
behind a b calls n fault = refl

module _ {F : Type 0} (config : Config F) (timed : is_zero config.file_name_extend ≡ false) where
  still_open : (opened : ℤ) (s : DataFile) → s.fd ≢ 0 → ready opened config s ≡ (s, [])
  still_open opened s some_open = ground (arith, timed)

  now_open :
      (opened : ℤ) (s : DataFile)
      → s.fd ≡ 0
      → ready opened config s ≡ (
        record s {
          filename = config.data_file_name ++ part_suffix s.part;
          fd = unsigned 32 opened;
        },
        unlink_file (config.data_file_name ++ part_suffix s.part)
            ∷ open_file (config.data_file_name ++ part_suffix s.part) opened
            ∷ [],
      )
  now_open opened s closed = ground (arith, timed)

  one_more :
      (opened : ℤ) (s : DataFile) (bytes : List ℕ)
      → s.frame_counter + 1 < unsigned 32 config.data_frames
      → store_packet opened config s bytes
        ≡ (record s { frame_counter = s.frame_counter + 1 }, write_bytes s.fd bytes ∷ [])
  one_more opened s bytes few = let top = unsigned32-lt config.data_frames in ground (arith, top)

  last_one :
      (opened : ℤ) (s : DataFile) (bytes : List ℕ)
      → s.fd ≢ 0
      → s.frame_counter + 1 ≡ unsigned 32 config.data_frames
      → store_packet opened config s bytes
        ≡ (ended s, write_bytes s.fd bytes ∷ close_file s.fd ∷ [])
  last_one opened s bytes some_open full =
      let top = unsigned32-lt config.data_frames in ground (arith, top)

  write_ready :
      (opened : ℤ) (s s' : DataFile) (calls : List FileCall) (p : Packet)
      → get_disable_file_write_bit p ≡ ok false
      → ready opened config s ≡ (s', calls)
      → s'.fd ≢ 0
      → write_file opened config s p ≡ (
          let w = store_packet opened config s' (write_to_file p) in
          ok (w.0, calls ++ w.1, w.0.frame_counter))
  write_ready opened s s' calls p enabled e some_open =
      write_file_runs opened config s p false enabled
      ∙ ap (λ r. ok (stored r (store_packet opened config r.0 (write_to_file p)))) e
      ∙ rw (==_of_ne s'.fd 0 some_open) refl

  -- The packets up to the end of a file that is open
  rest_of_part :
      (xs : List (ℤ × Packet)) (x : ℤ × Packet) (s : DataFile)
      → AllEnabled (x ∷ xs)
      → s.fd ≢ 0
      → s.frame_counter + 1 + length xs ≡ unsigned 32 config.data_frames
      → (counts : List ℕ) × (write_files s (with_config config (x ∷ xs))
          ≡ ok (ended s, writes s.fd (x ∷ xs) ++ close_file s.fd ∷ [], counts))
  unfolding write_files
  rest_of_part [] x s all some_open full = (
    0 ∷ [],
    rw
        (
          write_ready x.0 s s [] x.1 all.0 (still_open x.0 s some_open) some_open,
          last_one x.0 s (write_to_file x.1) some_open (omega arith),
        )
        refl,
  )
  rest_of_part (y ∷ xs) x s all some_open full =
      let next = record s { frame_counter = s.frame_counter + 1 } in
      let (counts, e) = rest_of_part xs y next all.1 some_open (omega arith) in
      (
        (s.frame_counter + 1) ∷ counts,
        rw
            (
              write_ready x.0 s s [] x.1 all.0 (still_open x.0 s some_open) some_open,
              one_more x.0 s (write_to_file x.1) (omega arith),
            )
            (rw e refl),
      )

  -- A first packet is written as in the state where its file is open, behind the calls that open it.
  opening :
      (xs : List (ℤ × Packet)) (x : ℤ × Packet) (s s' : DataFile) (a b : FileCall)
      → get_disable_file_write_bit x.1 ≡ ok false
      → ready x.0 config s ≡ (s', a ∷ b ∷ [])
      → s'.fd ≢ 0
      → write_files s (with_config config (x ∷ xs))
        ≡ (write_files s' (with_config config (x ∷ xs)) >>= after a b)
  unfolding write_files
  opening xs x s s' a b enabled e some_open =
      let w = store_packet x.0 config s' (write_to_file x.1) in
      ap (λ r. r >>= λ one. write_files one.0 (with_config config xs) >>= joined one.1 one.2)
        (write_ready x.0 s s' (a ∷ b ∷ []) x.1 enabled e some_open)
      ∙ behind a b w.1 w.0.frame_counter (write_files w.0 (with_config config xs))
      ∙ sym (
          ap
            (λ r.
              (r >>= λ one. write_files one.0 (with_config config xs) >>= joined one.1 one.2)
              >>= after a b)
            (write_ready x.0 s' s' [] x.1 enabled (still_open x.0 s' some_open) some_open))

  -- With no file open and the file names numbered by part, exactly `data_frames` packets whose bit is clear
  -- fill one part, if `open` gives a descriptor: a file of the configured name with the part's
  -- number is removed and opened, the packets are written to it in order, it is closed, and the
  -- next part, modulo 99999, is due.
  pub write_files-part :
      (x : ℤ × Packet) (xs : List (ℤ × Packet)) (s : DataFile)
      → AllEnabled (x ∷ xs)
      → s.fd ≡ 0
      → s.frame_counter ≡ 0
      → unsigned 32 x.0 ≢ 0
      → length xs + 1 ≡ unsigned 32 config.data_frames
      → (let name = config.data_file_name ++ part_suffix s.part in
          let fd = unsigned 32 x.0 in
          (counts : List ℕ) × (write_files s (with_config config (x ∷ xs))
            ≡ ok (
              record { part = (s.part + 1) % 99999; filename = name; frame_counter = 0; fd = 0 },
              unlink_file name ∷ open_file name x.0 ∷ (writes fd (x ∷ xs) ++ close_file fd ∷ []),
              counts,
            )))
  write_files-part x xs s all closed empty some_open full =
      let name = config.data_file_name ++ part_suffix s.part in
      let s' = record s { filename = name; fd = unsigned 32 x.0 } in
      let (counts, e) = rest_of_part xs x s' all some_open (omega arith) in
      (
        counts,
        opening xs x s s' (unlink_file name) (open_file name x.0) all.0 (now_open x.0 s closed)
              some_open
            ∙ ap (λ r. r >>= after (unlink_file name) (open_file name x.0)) e,
      )
