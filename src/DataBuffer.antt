-- ===== src/DataBuffer.antt =====
-- `DataBuffer` of include/data_buffer.h and src/data_buffer.cpp: a ring of packets with one writer and
-- several readers, which overwrites what a slow reader has not read.
-- An iterator into `data` is its index, and `data.end()` is `size`; going beyond it is a number too,
-- and reading through such an iterator is a fault. The vectors with one entry for each reader are
-- one list of `Reader` records. Mutex and condition variable only wake the reading threads.
pub mod Spec
pub mod View
pub mod Refine
pub mod Overrun
pub mod Room
pub mod Empty
mod Tests
use smurf_processor.Prelude.{
  ℕ, ◌+◌, ◌%◌, ◌^◌, ltb, ◌==◌, if◌then◌else◌, Bool, true, false, ◌||◌, Option, none, some, List, [],
  ◌∷◌, map, Result, ok, throw, fault, runtime_error, out_of_range, ◌>>=◌, length, get_elem?, set,
  replicate,
}

-- `std::size_t` increment
abbrev pub count_up : ℕ → ℕ
count_up n = (n + 1) % 2 ^ 64

pub record Reader : Type 0 where
  pub read_ptr : ℕ
  pub full : Bool
  pub empty : Bool
  pub read_cnt : ℕ
  pub ow_cnt : ℕ
  pub rof_cnt : ℕ

pub record DataBuffer {ℓ} (A : Type ℓ) : Type ℓ where
  pub size : ℕ
  pub slots : List A
  pub readers : List Reader
  pub write_ptr : ℕ
  pub write_cnt : ℕ

abbrev pub new_reader : Reader
new_reader = record {
  read_ptr = 0;
  full = false;
  empty = true;
  read_cnt = 0;
  ow_cnt = 0;
  rof_cnt = 0;
}

-- `++it; if (it == data.end()) it = data.begin();`
abbrev pub advance : ℕ → ℕ → ℕ
advance size it = if it + 1 == size then 0 else it + 1

-- The part of `getWritePtr` for one reader: no return to the start here.
abbrev pub overrun : Reader → Reader
overrun r = if r.full then record r { ow_cnt = count_up r.ow_cnt; read_ptr = r.read_ptr + 1 } else r

-- The parts of `doneWriting` for one reader, with the writer's new position
abbrev pub written : ℕ → Reader → Reader
written w r = record r { full = if w == r.read_ptr then true else r.full; empty = false }

-- `doneReading` for one reader
abbrev pub consumed : ℕ → ℕ → Reader → Reader
consumed size w r =
    let p = advance size r.read_ptr in
    record r {
      read_ptr = p;
      empty = if p == w then true else r.empty;
      full = false;
      read_cnt = count_up r.read_cnt;
    }

abbrev pub any_full : List Reader → Bool
any_full [] = false
any_full (r ∷ rs) = r.full || any_full rs

module _ {ℓ} {A : Type ℓ} where
  -- `DataBuffer(bufSize, numReaders)`; `fresh` is what `ISmurfPacket::create()` gives
  unfoldable pub new_buffer : A → ℕ → ℕ → DataBuffer A
  new_buffer fresh buf_size num_readers = record {
    size = buf_size;
    slots = replicate buf_size fresh;
    readers = replicate num_readers new_reader;
    write_ptr = 0;
    write_cnt = 0;
  }

  -- The slot to write to, behind the readers moved on
  unfoldable pub get_write_ptr : DataBuffer A → Result (DataBuffer A × ℕ)
  get_write_ptr d =
      if ltb d.write_ptr d.size
      then ok (record d { readers = map overrun d.readers }, d.write_ptr)
      else fault

  -- What the writer stores in the slot that it was given
  unfoldable pub fill : DataBuffer A → ℕ → A → DataBuffer A
  fill d slot a = record d { slots = set d.slots slot a }

  unfoldable pub done_writing : DataBuffer A → DataBuffer A
  done_writing d =
      let w = advance d.size d.write_ptr in
      record d {
        write_ptr = w;
        readers = map (written w) d.readers;
        write_cnt = count_up d.write_cnt;
      }

  -- The counter is stored also where the call throws.
  unfoldable pub get_read_ptr : DataBuffer A → ℕ → DataBuffer A × Result ℕ
  get_read_ptr d i = elim (get_elem? d.readers i) [
    | none ↦ (d, throw out_of_range)
    | some r ↦
        if r.empty
        then (
          record d { readers = set d.readers i (record r { rof_cnt = count_up r.rof_cnt }) },
          throw runtime_error,
        )
        else (d, if ltb r.read_ptr d.size then ok r.read_ptr else fault)
  ]

  unfoldable pub done_reading : DataBuffer A → ℕ → Result (DataBuffer A)
  done_reading d i = elim (get_elem? d.readers i) [
    | none ↦ throw out_of_range
    | some r ↦ ok (record d { readers = set d.readers i (consumed d.size d.write_ptr r) })
  ]

  unfoldable pub is_empty : DataBuffer A → ℕ → Result Bool
  is_empty d i = elim (get_elem? d.readers i) [ none ↦ throw out_of_range | some r ↦ ok r.empty ]

  unfoldable pub is_full : DataBuffer A → Bool
  is_full d = any_full d.readers

  pub get_rof_cnt : DataBuffer A → ℕ → Result ℕ
  get_rof_cnt d i = elim (get_elem? d.readers i) [
    | none ↦ throw out_of_range
    | some r ↦ ok r.rof_cnt
  ]

  pub get_ow_cnt : DataBuffer A → ℕ → Result ℕ
  get_ow_cnt d i = elim (get_elem? d.readers i) [ none ↦ throw out_of_range | some r ↦ ok r.ow_cnt ]

  pub clear_cnts : DataBuffer A → DataBuffer A
  clear_cnts d = record d {
    readers = map (λ (r : Reader). record r { rof_cnt = 0; ow_cnt = 0 }) d.readers;
  }

  pub get_size : DataBuffer A → ℕ
  get_size d = d.size

  pub get_num_readers : DataBuffer A → ℕ
  get_num_readers d = length d.readers

  -- The packet in a slot
  slot_value : DataBuffer A → ℕ → Result A
  slot_value d slot = elim (get_elem? d.slots slot) [ none ↦ fault | some a ↦ ok a ]

  -- The writer's turn: `getWritePtr`, the copy, `doneWriting`.
  unfoldable pub write_packet : DataBuffer A → A → Result (DataBuffer A)
  unfolding get_write_ptr fill done_writing
  write_packet d a = do (d', slot) ← get_write_ptr d; ok (done_writing (fill d' slot a))

  -- A reader's turn: `getReadPtr`, use of the packet, `doneReading`; an exception ends it early.
  unfoldable pub read_packet : DataBuffer A → ℕ → DataBuffer A × Result A
  unfolding get_read_ptr done_reading slot_value
  read_packet d i =
      let (d₁, slot) = get_read_ptr d i in
      elim (slot >>= slot_value d₁) [
        | ok a ↦ elim (done_reading d₁ i) [
          | ok d₂ ↦ (d₂, ok a)
          | throw e ↦ (d₁, throw e)
          | fault ↦ (d₁, fault)
        ]
        | throw e ↦ (d₁, throw e)
        | fault ↦ (d₁, fault)
      ]
