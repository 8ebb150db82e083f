-- ===== src/Server/Detect/Bounds.antt =====
-- What a read of a file returns, and the ranges of the numbers that the detection computes.
use codesign.Common.{
  ℕ, zero, suc, ◌+◌, ◌^◌, ◌≤◌, ◌<◌, ◌≡◌, ◌∙◌, [], ◌∷◌, ◌++◌, some, arith, le→leb, Bytes, length,
  get_or, take, drop, length-take, length-drop, get_or-take, take-drop-take, drop-drop,
  take-append-drop, drop-append, take-append, length-append, ap,
}
use native.Mathlib.Nat.{pow-le-pow_right}
use codesign.Server.Detect.{slice, file_reader, u16_le, u32_le}

-- Every element is a byte.
abbrev pub AreBytes : Bytes → Type 0
AreBytes [] = Unit {0}
AreBytes (b ∷ s) = (b < 256) × AreBytes s

get_or-byte : (s : Bytes) (i : ℕ) → AreBytes s → get_or s i 0 < 256
get_or-byte [] i h = omega arith
get_or-byte (b ∷ s) zero h = h.0
get_or-byte (b ∷ s) (suc i) h = get_or-byte s i h.1

pub u32_le_bound : (s : Bytes) (i : ℕ) → AreBytes s → u32_le s i < 4294967296
u32_le_bound s i h = omega (
  arith,
  get_or-byte s i h,
  get_or-byte s (i + 1) h,
  get_or-byte s (i + 2) h,
  get_or-byte s (i + 3) h,
)

pub file_reader-some :
    (f : Bytes) (off n : ℕ) → off + n ≤ length f → file_reader f off n ≡ some (slice off n f)
unfolding file_reader
file_reader-some f off n h = rw (le→leb (off + n) (length f) h)

pub file_reader-eq-some :
    (f : Bytes) (off n : ℕ) {b : Bytes}
    → file_reader f off n ≡ some b
    → (off + n ≤ length f) × (b ≡ slice off n f)
unfolding file_reader
file_reader-eq-some f off n h = ground arith

length-slice : (f : Bytes) (off n : ℕ) → off + n ≤ length f → length (slice off n f) ≡ n
length-slice f off n h = omega (arith, length-take n (drop off f), length-drop off f)

pub u32_le-take : (f : Bytes) (n i : ℕ) → i + 4 ≤ n → u32_le (take n f) i ≡ u32_le f i
u32_le-take f n i h = omega (
  arith,
  get_or-take n i f 0,
  get_or-take n (i + 1) f 0,
  get_or-take n (i + 2) f 0,
  get_or-take n (i + 3) f 0,
)

pub u16_le-take : (f : Bytes) (n i : ℕ) → i + 2 ≤ n → u16_le (take n f) i ≡ u16_le f i
u16_le-take f n i h = omega (arith, get_or-take n i f 0, get_or-take n (i + 1) f 0)

-- A slice of a slice.
pub slice-slice :
    (f : Bytes) (off n b a : ℕ) → b + a ≤ n → slice b a (slice off n f) ≡ slice (off + b) a f
slice-slice f off n b a h = take-drop-take a b n (drop off f) h ∙ rw (drop-drop b off f)

-- A file is what stands before a slice, the slice, and what follows.
pub slice_splits :
    (f : Bytes) (off n : ℕ) → f ≡ take off f ++ (slice off n f ++ drop n (drop off f))
slice_splits f off n = rw (take-append-drop n (drop off f), take-append-drop off f)

pub slice-append :
    (stub s image : Bytes) → slice (length stub) (length s) (stub ++ (s ++ image)) ≡ s
slice-append stub s image = rw (drop-append stub (s ++ image)) (take-append s image)

pub length-splits :
    {f : Bytes} (stub s image : Bytes)
    → f ≡ stub ++ (s ++ image)
    → length f ≡ length stub + (length s + length image)
length-splits stub s image e =
    omega (arith, ap length e, length-append stub (s ++ image), length-append s image)

-- Sectors of up to 4096 bytes: the offset of the directory stays far below 2 ^ 63.
pub pow_sector : (s : ℕ) → s ≤ 12 → 2 ^ s ≤ 4096
pow_sector s h = pow-le-pow_right (omega arith) h
