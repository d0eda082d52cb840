-- ===== src/DataBuffer/View.antt =====
-- One reader's view of the ring: the packets that wait for it, in the order in which it reads them.
use smurf_processor.Prelude.{
  ℕ, suc, ◌+◌, ◌≤◌, ◌<◌, ◌≡◌, ap, ◌∙◌, ◌⊎◌, ◌==◌, true, some, List, [], ◌∷◌, ◌++◌, arith, length,
  get_elem?, set, get_elem?-set_self, get_elem?-set_ne, length-append,
}
use mathlib.Core.Path.{subst}
use smurf_processor.DataBuffer.{Reader, advance, overrun, written, consumed}

-- `n` packets wait for a reader, and its two flags say whether that is `size` or none.
pub record Holds (size w n : ℕ) (r : Reader) : Type 0 where
  pub write_in : w < size
  pub read_in : r.read_ptr < size
  pub fits : n ≤ size
  pub ends : (r.read_ptr + n ≡ w) ⊎ (r.read_ptr + n ≡ w + size)
  pub full_flag : r.full ≡ (n == size)
  pub empty_flag : r.empty ≡ (n == 0)

moved_on : (r : Reader) → r.full ≡ true → (overrun r).read_ptr ≡ r.read_ptr + 1
moved_on r e = ground arith

module _ {ℓ} {A : Type ℓ} where
  -- The slots from `i` on, going round, hold these packets.
  abbrev pub Contains : List A → ℕ → ℕ → List A → Type ℓ
  Contains slots size i [] = Unit
  Contains slots size i (x ∷ q) =
      (get_elem? slots i ≡ some x) × Contains slots size (advance size i) q

  -- The packets `q` wait for the reader.
  pub record Sees (size w : ℕ) (slots : List A) (r : Reader) (q : List A) : Type ℓ where
    pub holds : Holds size w (length q) r
    pub contains : Contains slots size r.read_ptr q

  -- Filling the writer's slot, which is free, appends.
  Contains-set :
      (slots : List A) (size w i : ℕ) (q : List A) (a : A)
      → length slots ≡ size
      → w < size
      → i < size
      → length q < size
      → (i + length q ≡ w) ⊎ (i + length q ≡ w + size)
      → Contains slots size i q
      → Contains (set slots w a) size i (q ++ (a ∷ []))
  Contains-set slots size w i [] a e hw hi hn ends c =
      let here : i ≡ w = omega arith in
      (ap (get_elem? (set slots w a)) here ∙ get_elem?-set_self slots w a (omega arith), tt)
  Contains-set slots size w i (x ∷ q) a e hw hi hn ends c = (
    get_elem?-set_ne slots w i a (omega arith) ∙ c.0,
    Contains-set slots size w (advance size i) q a e hw (ground arith) (omega arith) (ground arith)
        c.1,
  )

  module _ (size w : ℕ) (slots : List A) (r : Reader) (q : List A) (a : A)
      (room : length slots ≡ size) (s : Sees size w slots r q) where
    not_overrun : length q < size → overrun r ≡ r
    not_overrun h = ground (arith, s.holds.full_flag)

    -- A write with room for the reader
    pub written-Sees :
        length q < size
        → Sees size
            (advance size w)
            (set slots w a)
            (written (advance size w) (overrun r))
            (q ++ (a ∷ []))
    written-Sees h =
        let n = length-append q (a ∷ []) in
        let v = s.holds in
        rw (not_overrun h) (record {
          holds = record {
            write_in = ground (arith, v.write_in);
            read_in = v.read_in;
            fits = omega (arith, n);
            ends = ground (arith, n, v.ends);
            full_flag = ground (arith, n, v.ends, v.full_flag, v.read_in, v.write_in);
            empty_flag = ground (arith, n);
          };
          contains =
              Contains-set slots size w r.read_ptr q a room v.write_in v.read_in h v.ends
                s.contains;
        })

  -- A write onto a full reader that has not come to the last slot drops the oldest packet.
  pub overwritten-Sees :
      (size w : ℕ) (slots : List A) (r : Reader) (x : A) (q : List A) (a : A)
      → length slots ≡ size
      → Sees size w slots r (x ∷ q)
      → suc (length q) ≡ size
      → r.read_ptr + 1 < size
      → Sees size
          (advance size w)
          (set slots w a)
          (written (advance size w) (overrun r))
          (q ++ (a ∷ []))
  overwritten-Sees size w slots r x q a room s h near =
      let n = length-append q (a ∷ []) in
      let v = s.holds in
      let full : r.full ≡ true = ground (arith, v.full_flag) in
      let there : (overrun r).read_ptr ≡ r.read_ptr + 1 = moved_on r full in
      let next : advance size r.read_ptr ≡ (overrun r).read_ptr = ground (arith, there) in
      record {
        holds = record {
          write_in = ground (arith, v.write_in);
          read_in = omega (arith, there);
          fits = omega (arith, n);
          ends = ground (arith, n, v.ends, there, v.write_in);
          full_flag = ground (arith, n, v.ends, there, v.write_in);
          empty_flag = ground (arith, n);
        };
        contains =
            Contains-set slots size w (overrun r).read_ptr q a room v.write_in
              (omega (arith, there)) (omega arith) (omega (arith, there, v.ends))
              (subst (λ i. Contains slots size i q) next s.contains.1);
      }

  -- Reading takes the oldest.
  pub consumed-Sees :
      (size w : ℕ) (slots : List A) (r : Reader) (x : A) (q : List A)
      → Sees size w slots r (x ∷ q)
      → Sees size w slots (consumed size w r) q
  consumed-Sees size w slots r x q s = record {
    holds = record {
      write_in = s.holds.write_in;
      read_in = ground (arith, s.holds.read_in);
      fits = omega (arith, s.holds.fits);
      ends = ground (arith, s.holds.ends, s.holds.read_in, s.holds.write_in);
      full_flag = ground (arith, s.holds.fits);
      empty_flag = ground (
        arith, s.holds.ends, s.holds.read_in, s.holds.write_in, s.holds.empty_flag, s.holds.fits,
      );
    };
    contains = s.contains.1;
  }
