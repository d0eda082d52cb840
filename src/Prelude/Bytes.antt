-- ===== src/Prelude/Bytes.antt =====
-- Byte buffers: little-endian words in memory, as the program reads and writes them on x86.
use Prim.Native.Nat.{ℕ, zero, suc, ◌+◌, ◌*◌, ◌/◌, ◌%◌, ◌^◌, ◌≤◌, ◌<◌}
use mathlib.Core.Path.{◌≡◌, refl, ap, ◌∙◌}
use mathlib.Core.Logic.{◌⊎◌}
use mathlib.Core.List.{List, [], ◌∷◌}
use native.Mathlib.Omega.{arith}
use smurf_processor.Prelude.Tests.{ltb, leb, if◌then◌else◌}
use smurf_processor.Prelude.Results.{Result, ok, fault}
use native.Mathlib.Nat.{pow-suc, div-div-eq-div-mul, div-add-mod}
use smurf_processor.Prelude.Lists.{
  length, get_or, take, set, replicate, length-set, get_or-set_self, get_or-set_ne,
}

abbrev pub byte_at : List ℕ → ℕ → ℕ
byte_at buf i = get_or buf i 0

-- Every element is a byte.
abbrev pub IsBytes : List ℕ → Type 0
IsBytes buf = (j : ℕ) → byte_at buf j < 256

-- The `n`-byte word at index `i`.
unfoldable pub word : ℕ → List ℕ → ℕ → ℕ
word zero buf i = 0
word (suc n) buf i = byte_at buf i + 256 * word n buf (suc i)

-- The `n` bytes of a value, low byte first.
unfoldable pub le_bytes : ℕ → ℕ → List ℕ
le_bytes zero v = []
le_bytes (suc n) v = v % 256 ∷ le_bytes n (v / 256)

-- `memcpy(&buf[i], bs, length bs)`
unfoldable pub write : List ℕ → ℕ → List ℕ → List ℕ
write buf i [] = buf
write buf i (b ∷ bs) = write (set buf i b) (suc i) bs

-- A read of one byte, and a write of one.
unfoldable pub peek : List ℕ → ℕ → Result ℕ
peek buf i = if ltb i (length buf) then ok (byte_at buf i) else fault

unfoldable pub poke : List ℕ → ℕ → ℕ → Result (List ℕ)
poke buf i b = if ltb i (length buf) then ok (set buf i b) else fault

-- A read through a pointer to an `n`-byte word.
unfoldable pub load : ℕ → List ℕ → ℕ → Result ℕ
load n buf i = if leb (i + n) (length buf) then ok (word n buf i) else fault

-- A write of some bytes to consecutive places.
unfoldable pub store : List ℕ → ℕ → List ℕ → Result (List ℕ)
store buf i bs = if leb (i + length bs) (length buf) then ok (write buf i bs) else fault

pub peek_in : (buf : List ℕ) (i : ℕ) → i < length buf → peek buf i ≡ ok (byte_at buf i)
unfolding peek
peek_in buf i h = ground arith

pub poke_in : (buf : List ℕ) (i b : ℕ) → i < length buf → poke buf i b ≡ ok (set buf i b)
unfolding poke
poke_in buf i b h = ground arith

pub load_in : (n : ℕ) (buf : List ℕ) (i : ℕ) → i + n ≤ length buf → load n buf i ≡ ok (word n buf i)
unfolding load
load_in n buf i h = ground arith

pub store_in :
    (buf : List ℕ) (i : ℕ) (bs : List ℕ)
    → i + length bs ≤ length buf
    → store buf i bs ≡ ok (write buf i bs)
unfolding store
store_in buf i bs h = ground arith

pub length-le_bytes : (n v : ℕ) → length (le_bytes n v) ≡ n
unfolding le_bytes
length-le_bytes zero v = refl
length-le_bytes (suc n) v = ap suc (length-le_bytes n (v / 256))

pub le_bytes-IsBytes : (n v : ℕ) → IsBytes (le_bytes n v)
unfolding le_bytes
le_bytes-IsBytes zero v j = omega arith
le_bytes-IsBytes (suc n) v zero = omega arith
le_bytes-IsBytes (suc n) v (suc j) = le_bytes-IsBytes n (v / 256) j

pub length-write : (bs buf : List ℕ) (i : ℕ) → length (write buf i bs) ≡ length buf
unfolding write
length-write [] buf i = refl
length-write (b ∷ bs) buf i = length-write bs (set buf i b) (suc i) ∙ length-set buf i b

-- A write leaves what lies before and behind it.
pub write_outside :
    (bs buf : List ℕ) (i j : ℕ)
    → (j < i) ⊎ (i + length bs ≤ j)
    → byte_at (write buf i bs) j ≡ byte_at buf j
unfolding write
write_outside [] buf i j h = refl
write_outside (b ∷ bs) buf i j h =
    write_outside bs (set buf i b) (suc i) j (omega arith) ∙ get_or-set_ne buf i j b 0 (omega arith)

pub write_inside :
    (bs buf : List ℕ) (i k : ℕ)
    → i + length bs ≤ length buf
    → k < length bs
    → byte_at (write buf i bs) (i + k) ≡ byte_at bs k
unfolding write
write_inside [] buf i k h lt = absurd (omega arith)
write_inside (b ∷ bs) buf i zero h lt =
    let here : i + 0 ≡ i = omega arith in
    ap (byte_at (write (set buf i b) (suc i) bs)) here
    ∙ write_outside bs (set buf i b) (suc i) i (omega arith)
    ∙ get_or-set_self buf i b 0 (omega arith)
write_inside (b ∷ bs) buf i (suc k) h lt =
    let shift : i + suc k ≡ suc i + k = omega arith in
    ap (byte_at (write (set buf i b) (suc i) bs)) shift
    ∙ write_inside bs (set buf i b) (suc i) k (omega (arith, length-set buf i b)) (omega arith)

-- A word depends on its own bytes only.
pub word_ext :
    (n : ℕ) (a b : List ℕ) (i j : ℕ)
    → ((k : ℕ) → k < n → byte_at a (i + k) ≡ byte_at b (j + k))
    → word n a i ≡ word n b j
unfolding word
word_ext zero a b i j h = refl
word_ext (suc n) a b i j h =
    let first : byte_at a i ≡ byte_at b j =
      ap (byte_at a) (omega arith) ∙ h 0 (omega arith) ∙ ap (byte_at b) (omega arith) in
    let rest : word n a (suc i) ≡ word n b (suc j) = word_ext n a b (suc i) (suc j) λ k lt.
      ap (byte_at a) (omega arith) ∙ h (suc k) (omega arith) ∙ ap (byte_at b) (omega arith) in
    omega (arith, first, rest)

word-cons : (n x : ℕ) (xs : List ℕ) (i : ℕ) → word n (x ∷ xs) (suc i) ≡ word n xs i
unfolding word
word-cons zero x xs i = refl
word-cons (suc n) x xs i = omega (arith, word-cons n x xs (suc i))

pub word-lt : (n : ℕ) (buf : List ℕ) (i : ℕ) → IsBytes buf → word n buf i < 256 ^ n
unfolding word
word-lt zero buf i h = omega arith
word-lt (suc n) buf i h = omega (arith, word-lt n buf (suc i) h, h i, pow-suc 256 n)

mod-digit : (v p : ℕ) → v % 256 + 256 * (v / 256 % p) ≡ v % (256 * p)
mod-digit v p = omega (
  arith,
  div-div-eq-div-mul v 256 p,
  div-add-mod (v / 256) p,
  div-add-mod v (256 * p),
  ap (λ (t : ℕ). p * t) (div-div-eq-div-mul v 256 p),
)

pub word-le_bytes : (n v : ℕ) → word n (le_bytes n v) 0 ≡ v % 256 ^ n
unfolding word le_bytes
word-le_bytes zero v = omega arith
word-le_bytes (suc n) v =
    rw (word-cons n (v % 256) (le_bytes n (v / 256)) 0, word-le_bytes n (v / 256), pow-suc 256 n)
      (mod-digit v (256 ^ n) ∙ ap (λ t. v % t) (omega arith))

-- A word that is written is read back, cut to its width.
pub word-write_self :
    (n v : ℕ) (buf : List ℕ) (i : ℕ)
    → i + n ≤ length buf
    → word n (write buf i (le_bytes n v)) i ≡ v % 256 ^ n
word-write_self n v buf i h =
    word_ext n (write buf i (le_bytes n v)) (le_bytes n v) i 0 (λ k lt.
      write_inside (le_bytes n v) buf i k (omega (arith, length-le_bytes n v))
        (omega (arith, length-le_bytes n v))
      ∙ ap (byte_at (le_bytes n v)) (omega arith))
    ∙ word-le_bytes n v

-- A word that does not meet what is written stays.
pub word-write_apart :
    (n j : ℕ) (bs buf : List ℕ) (i : ℕ)
    → (j + n ≤ i) ⊎ (i + length bs ≤ j)
    → word n (write buf i bs) j ≡ word n buf j
word-write_apart n j bs buf i h =
    word_ext n (write buf i bs) buf j j λ k lt. write_outside bs buf i (j + k) (omega arith)

pub set-IsBytes : (buf : List ℕ) (i b : ℕ) → b < 256 → IsBytes buf → IsBytes (set buf i b)
set-IsBytes [] i b hb h j = h j
set-IsBytes (x ∷ xs) zero b hb h zero = hb
set-IsBytes (x ∷ xs) zero b hb h (suc j) = h (suc j)
set-IsBytes (x ∷ xs) (suc i) b hb h zero = h 0
set-IsBytes (x ∷ xs) (suc i) b hb h (suc j) = set-IsBytes xs i b hb (λ k. h (suc k)) j

-- A write of bytes leaves bytes.
pub write-IsBytes : (bs buf : List ℕ) (i : ℕ) → IsBytes bs → IsBytes buf → IsBytes (write buf i bs)
unfolding write
write-IsBytes [] buf i hb h = h
write-IsBytes (b ∷ bs) buf i hb h =
    write-IsBytes bs (set buf i b) (suc i) (λ j. hb (suc j)) (set-IsBytes buf i b (hb 0) h)

pub replicate-IsBytes : (n b : ℕ) → b < 256 → IsBytes (replicate n b)
replicate-IsBytes zero b h j = omega arith
replicate-IsBytes (suc n) b h zero = h
replicate-IsBytes (suc n) b h (suc j) = replicate-IsBytes n b h j

pub take-IsBytes : (n : ℕ) (buf : List ℕ) → IsBytes buf → IsBytes (take n buf)
take-IsBytes zero buf h j = omega arith
take-IsBytes (suc n) [] h j = omega arith
take-IsBytes (suc n) (x ∷ xs) h zero = h 0
take-IsBytes (suc n) (x ∷ xs) h (suc j) = take-IsBytes n xs (λ k. h (suc k)) j
