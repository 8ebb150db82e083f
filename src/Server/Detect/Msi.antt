-- ===== src/Server/Detect/Msi.antt =====
-- `isMSI` and `compoundRootCLSID` against a description of the compound-file header.
use codesign.Common.{
  ℕ, ◌+◌, ◌*◌, ◌^◌, ◌≤◌, ◌<◌, ◌≡◌, ◌≢◌, refl, sym, ap, ◌∙◌, ◌↔◌, Bool, true, false, not, none, some,
  Option, arith, Bytes, length, ltb, lt→ltb, ◌==◌,
}
use native.Mathlib.Decide.{dec_lt}
use codesign.Common.Options.{◌>>=◌, ◌>>◌, guard}
use codesign.Server.Detect.{
  slice, file_reader, u16_le, u32_le, header_len, dir_entry_len, dir_offset, is_sector_shift,
  root_clsid_of, compound_root_clsid,
}
use codesign.Server.Detect.Bounds.{
  AreBytes, u32_le_bound, file_reader-some, file_reader-eq-some, u32_le-take, u16_le-take,
  slice-slice, pow_sector,
}

-- Where the root entry stands: the header takes one sector, and the first directory sector is counted
-- from behind it.
abbrev pub entry_at : Bytes → ℕ
entry_at f = let sector = 2 ^ u16_le f 30 in sector + u32_le f 48 * sector

entry_at-dir_offset : (f : Bytes) → entry_at f ≡ dir_offset f
entry_at-dir_offset f = next_sector (u32_le f 48) (2 ^ u16_le f 30)
  where
    next_sector : (n size : ℕ) → size + n * size ≡ (n + 1) * size
    next_sector n size = grind arith

-- The file has a root storage entry inside it, and this is its class id.
pub record RootClsid (f clsid : Bytes) : Type 0 where
  pub header_fits : header_len ≤ length f
  pub sector_low : 7 ≤ u16_le f 30
  pub sector_high : u16_le f 30 ≤ 12
  pub allocated : u32_le f 48 ≢ 0xFFFFFFFF
  pub entry_fits : entry_at f + dir_entry_len ≤ length f
  pub clsid_is : clsid ≡ slice (entry_at f + 0x50) 16 f

-- What is left of `compoundRootCLSID` when the header is read.
abbrev entry_clsid : Bytes → ℕ → ℕ → ℕ → Option Bytes
entry_clsid f shift sector off = do
  guard (is_sector_shift shift)
  guard (not (sector == 0xFFFFFFFF))
  guard (not (ltb (length f) (off + dir_entry_len)))
  entry ← file_reader f off dir_entry_len
  some (root_clsid_of entry)

header_read :
    (f : Bytes)
    → header_len ≤ length f
    → compound_root_clsid (file_reader f) (length f)
      ≡ entry_clsid f (u16_le f 30) (u32_le f 48) (dir_offset f)
unfolding compound_root_clsid
header_read f h =
    rw (not_short (length f) h, file_reader-some f 0 512 h)
      (rw (u16_le-take f 512 30 (omega arith), u32_le-take f 512 48 (omega arith)))
  where
    not_short : (n : ℕ) → 512 ≤ n → ltb n 512 ≡ false
    not_short n k = ground arith

header_missing :
    (f : Bytes) → length f < 512 → compound_root_clsid (file_reader f) (length f) ≡ none
unfolding compound_root_clsid
header_missing f h = rw (lt→ltb (length f) 512 h)

-- All the tests of a chain passed, and its read succeeded.
chain_passed :
    (t u v : Bool) (r : Option Bytes) {c : Bytes}
    → (do guard t; guard u; guard v; entry ← r; some (root_clsid_of entry)) ≡ some c
    → (t ≡ true) × (u ≡ true) × (v ≡ true) × (b : Bytes) × (r ≡ some b) × (root_clsid_of b ≡ c)
chain_passed false u v r h = cc
chain_passed true false v r h = cc
chain_passed true true false r h = cc
chain_passed true true true none h = cc
chain_passed true true true (some b) h = (refl, refl, refl, b, refl, cc)

shift_range : (shift : ℕ) → is_sector_shift shift ≡ true → (7 ≤ shift) × (shift ≤ 12)
shift_range shift h = ground arith

is_allocated : (sector : ℕ) → not (sector == 0xFFFFFFFF) ≡ true → sector ≢ 0xFFFFFFFF
is_allocated sector h = ground arith

entry_found :
    (f : Bytes) (shift sector off : ℕ) {c : Bytes}
    → entry_clsid f shift sector off ≡ some c
    → (7 ≤ shift)
      × (shift ≤ 12)
      × (sector ≢ 0xFFFFFFFF)
      × (off + 128 ≤ length f)
      × (c ≡ slice (off + 0x50) 16 f)
entry_found f shift sector off h =
    let (shifts, allocated, sized, b, read, is_c) = chain_passed _ _ _ _ h in
    let (low, high) = shift_range shift shifts in
    let (fits, is_slice) = file_reader-eq-some f off 128 read in
    (
      low,
      high,
      is_allocated sector allocated,
      fits,
      sym is_c ∙ ap root_clsid_of is_slice ∙ slice-slice f off 128 0x50 16 (omega arith),
    )

entry_read :
    (f : Bytes) (shift sector off : ℕ)
    → 7 ≤ shift
    → shift ≤ 12
    → sector ≢ 0xFFFFFFFF
    → off + 128 ≤ length f
    → entry_clsid f shift sector off ≡ some (slice (off + 0x50) 16 f)
entry_read f shift sector off lo hi alloc fits =
    rw (file_reader-some f off 128 fits)
      (ground (arith, slice-slice f off 128 0x50 16 (omega arith)))

-- The class id of the root entry is found exactly when the file has such an entry inside it.
pub compound_root_clsid_iff :
    (f c : Bytes) → (compound_root_clsid (file_reader f) (length f) ≡ some c) ↔ RootClsid f c
compound_root_clsid_iff f c = (to, from)
  where
    to : compound_root_clsid (file_reader f) (length f) ≡ some c → RootClsid f c
    to h = elim (dec_lt (length f) 512) [
      | yes short ↦ cc (header_missing f short)
      | no long ↦
          let fits : 512 ≤ length f = omega arith in
          let (low, high, allocated, inside, is_c) =
            entry_found f _ _ _ (sym (header_read f fits) ∙ h) in
          record {
            header_fits = fits;
            sector_low = low;
            sector_high = high;
            allocated = allocated;
            entry_fits = rw (entry_at-dir_offset f) inside;
            clsid_is = is_c ∙ ap (λ at. slice (at + 0x50) 16 f) (sym (entry_at-dir_offset f));
          }
    ]

    from : RootClsid f c → compound_root_clsid (file_reader f) (length f) ≡ some c
    from r =
        header_read f r.header_fits
        ∙ entry_read f _ _ _ r.sector_low r.sector_high r.allocated
            (rw (entry_at-dir_offset f) at r.entry_fits)
        ∙ ap some (sym (r.clsid_is ∙ ap (λ at. slice (at + 0x50) 16 f) (entry_at-dir_offset f)))

-- On a file of bytes with a sector shift that passes the range check of `compoundRootCLSID`, the end
-- of the root entry, which it computes in int64 next, stays below 2 ^ 63 and does not wrap.
pub dir_offset_bound :
    (f : Bytes)
    → AreBytes f
    → is_sector_shift (u16_le f 30) ≡ true
    → dir_offset f + dir_entry_len < 2 ^ 63
dir_offset_bound f bytes passes =
    let h = (shift_range (u16_le f 30) passes).1 in
    product _ _ (u32_le_bound f 48 bytes) (pow_sector _ h)
  where
    product : (x y : ℕ) → x < 4294967296 → y ≤ 4096 → (x + 1) * y + 128 < 2 ^ 63
    product x y hx hy = grind arith
