-- ===== src/DataFile/Calls.antt =====
-- The system calls of a sequence of `write_file`, replayed against the one file that is open.
use smurf_processor.Prelude.{
  ℕ, suc, leb, ◌+◌, ◌-◌, ◌%◌, ◌≡◌, ◌≢◌, ◌<◌, ◌^◌, refl, ◌∙◌, ap, ◌==◌, ◌&&◌, not, if◌then◌else◌,
  Bool, Bool-cases, true, false, List, [], ◌∷◌, ◌++◌, Option, none, some, Result, ok, ◌>>=◌, arith,
  length, inl, inr,
}
use smurf_processor.Prelude.Int.{ℤ, pos, negsuc, unsigned}
use smurf_processor.Config.{Config}
use smurf_processor.Packet.{Packet, IsValid, write_to_file}
use smurf_processor.Packet.Getters.{get_disable_file_write_bit}
use smurf_processor.Packet.WordBits.{has_bit}
use smurf_processor.Packet.Control.{control, disable_file_write, get_bit_read}
use smurf_processor.DataFile.{
  FileCall, close_file, unlink_file, open_file, write_bytes, DataFile, close_if_open, is_renamed,
  next_name, ready, store_packet, write_file,
}

-- The calls against the open descriptor, zero for none, and the one open after them: a file is opened only
-- where none is open, and only the open one is written to or closed. A negative result of `open`
-- opens nothing, and a descriptor zero is out of order, since `write_file` takes it for none.
unfoldable pub replay : List FileCall → ℕ → Option ℕ
replay [] fd = some fd
replay (close_file f ∷ calls) fd = if not (fd == 0) && (f == fd) then replay calls 0 else none
replay (unlink_file name ∷ calls) fd = replay calls fd
replay (open_file name (pos n) ∷ calls) fd =
    if fd == 0 && not (n == 0) then replay calls n else none
replay (open_file name (negsuc n) ∷ calls) fd = if fd == 0 then replay calls 0 else none
replay (write_bytes f bytes ∷ calls) fd =
    if not (fd == 0) && (f == fd) then replay calls fd else none

pub replay-append :
    (xs ys : List FileCall) (fd mid : ℕ)
    → replay xs fd ≡ some mid
    → replay (xs ++ ys) fd ≡ replay ys mid
unfolding replay
replay-append [] ys fd mid e = cc
replay-append (close_file f ∷ xs) ys fd mid e =
    let rest : replay xs 0 ≡ some mid → replay (xs ++ ys) 0 ≡ replay ys mid =
      replay-append xs ys 0 mid in
    ground (arith, rest)
replay-append (unlink_file name ∷ xs) ys fd mid e = replay-append xs ys fd mid e
replay-append (open_file name (pos n) ∷ xs) ys fd mid e = ground (arith, replay-append xs ys n mid)
replay-append (open_file name (negsuc n) ∷ xs) ys fd mid e =
    ground (arith, replay-append xs ys 0 mid)
replay-append (write_bytes f bytes ∷ xs) ys fd mid e = ground (arith, replay-append xs ys fd mid)

-- `open` succeeds, with a descriptor other than zero.
abbrev pub IsOpened : ℤ → Type 0
IsOpened opened = (n : ℕ) × (opened ≡ pos n) × (0 < n) × (n < 2 ^ 31)

module _ {F : Type 0} (opened : ℤ) (config : Config F) (s : DataFile) where
  replay-ready :
      IsOpened opened → replay (ready opened config s).1 s.fd ≡ some (ready opened config s).0.fd
  unfolding replay
  replay-ready (n, e, lo, hi) = rw e (ground arith)

  replay-store_packet :
      (bytes : List ℕ)
      → s.fd ≢ 0
      → replay (store_packet opened config s bytes).1 s.fd
        ≡ some (store_packet opened config s bytes).0.fd
  unfolding replay
  replay-store_packet bytes some_open = ground arith

  replay-close_if_open : replay (close_if_open s) s.fd ≡ some 0
  unfolding replay
  replay-close_if_open = ground arith

-- What a call does with a packet whose bit is clear, from how it gets a file and how it then stores
abbrev pub stored :
    DataFile × List FileCall → DataFile × List FileCall → DataFile × List FileCall × ℕ
stored r w = if r.0.fd == 0 then (r.0, r.1, 0) else (w.0, r.1 ++ w.1, w.0.frame_counter)

abbrev pub enabled_call :
    {F : Type 0} → ℤ → Config F → DataFile → List ℕ → DataFile × List FileCall × ℕ
enabled_call opened config s bytes =
    let r = ready opened config s in stored r (store_packet opened config r.0 bytes)

-- What a call does, on every branch, by the packet's bit
pub write_file_runs :
    {F : Type 0} (opened : ℤ) (config : Config F) (s : DataFile) (p : Packet) (disabled : Bool)
    → get_disable_file_write_bit p ≡ ok disabled
    → write_file opened config s p
      ≡ ok (
          if disabled
          then (record s { part = 0; frame_counter = 0; fd = 0 }, close_if_open s, 0)
          else enabled_call opened config s (write_to_file p))
unfolding write_file
write_file_runs opened config s p disabled e = rw e (ground arith)

replay-stored :
    (r w : DataFile × List FileCall) (fd : ℕ)
    → replay r.1 fd ≡ some r.0.fd
    → (r.0.fd ≢ 0 → replay w.1 r.0.fd ≡ some w.0.fd)
    → replay (stored r w).1 fd ≡ some (stored r w).0.fd
replay-stored r w fd hr hw = elim (Bool-cases (r.0.fd == 0)) [
  | inl e ↦ rw e hr
  | inr e ↦ rw e (replay-append r.1 w.1 fd r.0.fd hr ∙ hw (ground (arith, e)))
]

replay-enabled_call :
    {F : Type 0} (opened : ℤ) (config : Config F) (s : DataFile) (bytes : List ℕ)
    → IsOpened opened
    → replay (enabled_call opened config s bytes).1 s.fd
      ≡ some (enabled_call opened config s bytes).0.fd
replay-enabled_call opened config s bytes given =
    let r = ready opened config s in
    replay-stored r (store_packet opened config r.0 bytes) s.fd (replay-ready opened config s given)
      (replay-store_packet opened config r.0 bytes)

pub write_file-replay :
    {F : Type 0} (opened : ℤ) (config : Config F) (s : DataFile) (p : Packet)
    → IsOpened opened
    → IsValid p
    → (out : DataFile × List FileCall × ℕ) × (write_file opened config s p ≡ ok out)
      × (replay out.1 s.fd ≡ some out.0.fd)
write_file-replay opened config s p given v =
    let runs = write_file_runs opened config s p in
    elim (Bool-cases (has_bit (control p) 2)) [
      | inl e ↦ (
        (record s { part = 0; frame_counter = 0; fd = 0 }, close_if_open s, 0),
        runs true (get_bit_read v disable_file_write ∙ ap ok e),
        replay-close_if_open opened config s,
      )
      | inr e ↦ (
        enabled_call opened config s (write_to_file p),
        runs false (get_bit_read v disable_file_write ∙ ap ok e),
        replay-enabled_call opened config s (write_to_file p) given,
      )
    ]

-- A call on a valid packet succeeds, whatever `open` returns.
pub write_file_total :
    {F : Type 0} (opened : ℤ) (config : Config F) (s : DataFile) (p : Packet)
    → IsValid p
    → (out : DataFile × List FileCall × ℕ) × (write_file opened config s p ≡ ok out)
write_file_total opened config s p v =
    (_, write_file_runs opened config s p _ (get_bit_read v disable_file_write))

stored-opened :
    (r w : DataFile × List FileCall) → (r.0.fd == 0) ≡ false → (stored r w).1 ≡ r.1 ++ w.1
stored-opened r w e = rw e refl

module _ {F : Type 0} (n : ℕ) (config : Config F) (s : DataFile) where
  abbrev failed_name : List ℕ
  failed_name = next_name (negsuc n) config s

  ready-failed :
      s.fd ≡ 0
      → ready (negsuc n) config s ≡ (
        record s { filename = failed_name; fd = unsigned 32 (negsuc n) },
        unlink_file failed_name ∷ open_file failed_name (negsuc n) ∷ [],
      )
  ready-failed closed = elim (Bool-cases (is_renamed (negsuc n) config s)) [
    | inl e ↦ rw (e, closed) refl
    | inr e ↦ rw (e, closed) refl
  ]

  store_packet-first :
      (bytes : List ℕ)
      → (rest : List FileCall) × ((store_packet (negsuc n) config s bytes).1
          ≡ write_bytes s.fd bytes ∷ rest)
  store_packet-first bytes =
      elim (Bool-cases (leb (unsigned 32 config.data_frames) ((s.frame_counter + 1) % 2 ^ 32))) [
        | inl e ↦ (close_if_open s, rw e refl)
        | inr e ↦ ([], rw e refl)
      ]

-- If `open` fails for a packet that is to be written while no file is open, the call returns no error: behind the
-- failed `open` it writes the packet to the number that the failure is as an unsigned one, so its
-- system calls are out of order for each such state and packet.
pub write_file_failed_open :
    {F : Type 0} (n : ℕ) (config : Config F) (s : DataFile) (p : Packet)
    → n < 2 ^ 31
    → get_disable_file_write_bit p ≡ ok false
    → s.fd ≡ 0
    → (out : DataFile × List FileCall × ℕ) × (name : List ℕ) × (rest : List FileCall) × (write_file
          (negsuc n)
          config
          s
          p
        ≡ ok out)
      × (out.1
          ≡ unlink_file name
            ∷ open_file name (negsuc n)
            ∷ write_bytes (2 ^ 32 - suc n) (write_to_file p)
            ∷ rest)
      × (replay out.1 s.fd ≡ none)
unfolding replay
write_file_failed_open n config s p small enabled closed =
    let opened : DataFile = record s {
      filename = failed_name n config s;
      fd = unsigned 32 (negsuc n);
    } in
    let opening =
      unlink_file (failed_name n config s) ∷ open_file (failed_name n config s) (negsuc n) ∷ [] in
    let bytes = write_to_file p in
    let (rest, first) = store_packet-first n config opened bytes in
    let number : unsigned 32 (negsuc n) ≡ 2 ^ 32 - suc n = ground arith in
    let some_number : (unsigned 32 (negsuc n) == 0) ≡ false = ground arith in
    let calls : (enabled_call (negsuc n) config s (write_to_file p)).1
        ≡ unlink_file (failed_name n config s)
          ∷ open_file (failed_name n config s) (negsuc n)
          ∷ write_bytes (2 ^ 32 - suc n) (write_to_file p)
          ∷ rest =
      ap (λ r. (stored r (store_packet (negsuc n) config r.0 bytes)).1)
        (ready-failed n config s closed)
      ∙ stored-opened (opened, opening) (store_packet (negsuc n) config opened bytes) some_number
      ∙ ap (λ more. opening ++ more) (first ∙ ap (λ fd. write_bytes fd bytes ∷ rest) number) in
    (
      enabled_call (negsuc n) config s (write_to_file p),
      failed_name n config s,
      rest,
      write_file_runs (negsuc n) config s p false enabled,
      calls,
      rw (calls, closed) refl,
    )

-- A sequence of calls: what `open` would return, the settings and the packet of each, the system calls of
-- them all, and the numbers returned
unfoldable pub write_files :
    {F : Type 0}
    → DataFile
    → List (ℤ × Config F × Packet)
    → Result (DataFile × List FileCall × List ℕ)
write_files s [] = ok (s, [], [])
write_files s ((opened, config, p) ∷ rest) = write_file opened config s p >>= λ one.
    write_files one.0 rest >>= λ more. ok (more.0, one.1 ++ more.1, one.2 ∷ more.2)

abbrev pub AllValid : {F : Type 0} → List (ℤ × Config F × Packet) → Type 0
AllValid [] = Unit
AllValid ((opened, config, p) ∷ rest) = IsOpened opened × IsValid p × AllValid rest

-- If `open` never fails and never returns zero, then whatever the settings and the control bits are, a sequence of
-- `write_file` on valid packets gives no error, and its system calls are in order: a file is opened
-- only while none is open, only the open one is written to and closed, and the one left open is the
-- one in `fd`.
pub write_files-replay :
    {F : Type 0} (inputs : List (ℤ × Config F × Packet)) (s : DataFile)
    → AllValid inputs
    → (out : DataFile × List FileCall × List ℕ) × (write_files s inputs ≡ ok out)
      × (replay out.1 s.fd ≡ some out.0.fd)
      × (length out.2 ≡ length inputs)
unfolding write_files replay
write_files-replay [] s all = ((s, [], []), refl, refl, refl)
write_files-replay ((opened, config, p) ∷ rest) s all =
    let (one, e, r) = write_file-replay opened config s p all.0 all.1 in
    let (more, e', r', l) = write_files-replay rest one.0 all.2 in
    (
      (more.0, one.1 ++ more.1, one.2 ∷ more.2),
      rw (e, e') refl,
      replay-append one.1 more.1 s.fd one.0.fd r ∙ r',
      ap suc l,
    )
