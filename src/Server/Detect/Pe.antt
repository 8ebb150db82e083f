-- ===== src/Server/Detect/Pe.antt =====
-- `isPE` decides a description of the PE header that names no read.
use codesign.Common.{
  ℕ, ◌≤◌, ◌<◌, ◌≡◌, sym, ◌∙◌, ◌↔◌, Bool, true, false, not, ◌||◌, ◌++◌, arith, Bytes, length, get_or,
  ltb, lt→ltb, ◌==◌, equal, if◌then◌else◌, get_or-take,
}
use mathlib.Core.Bool.{false≢true}
use native.Mathlib.Decide.{dec_lt}
use codesign.Server.Detect.{
  file_reader, u32_le, reads, dos_header_len, lfanew_at, pe_signature, is_pe,
}
use codesign.Server.Detect.Signature.{signature_found, signature_read}
use codesign.Server.Detect.Bounds.{file_reader-some, u32_le-take}

-- The file starts with a DOS header, whose last word is the offset of the signature.
pub record IsPe (f : Bytes) : Type 0 where
  pub header_fits : dos_header_len ≤ length f
  pub starts_m : get_or f 0 0 ≡ b'M'
  pub starts_z : get_or f 1 0 ≡ b'Z'
  pub stub : Bytes
  pub image : Bytes
  pub splits : f ≡ stub ++ (pe_signature ++ image)
  pub offset : length stub ≡ u32_le f lfanew_at

not_short : (n : ℕ) → 64 ≤ n → ltb n 64 ≡ false
not_short n h = ground arith

-- The part of `isPE` behind the size check, on a file that is long enough.
is_pe_long :
    (f : Bytes)
    → dos_header_len ≤ length f
    → is_pe (file_reader f) (length f) ≡ (
        if not (get_or f 0 0 == b'M') || not (get_or f 1 0 == b'Z')
        then false
        else reads (file_reader f (u32_le f lfanew_at) 4) λ sig. equal sig pe_signature)
unfolding is_pe
is_pe_long f h = rw (
  not_short (length f) h,
  file_reader-some f 0 64 h,
  get_or-take 64 0 f 0 (omega arith),
  get_or-take 64 1 f 0 (omega arith),
  u32_le-take f 64 60 (omega arith),
)

is_pe_short : (f : Bytes) → length f < 64 → is_pe (file_reader f) (length f) ≡ false
unfolding is_pe
is_pe_short f h = rw (lt→ltb (length f) 64 h)

marks :
    (m z : ℕ) (rest : Bool)
    → (if not (m == b'M') || not (z == b'Z') then false else rest) ≡ true
    → (m ≡ b'M') × (z ≡ b'Z') × (rest ≡ true)
marks m z rest h = ground arith

is_pe-IsPe : (f : Bytes) → is_pe (file_reader f) (length f) ≡ true → IsPe f
is_pe-IsPe f h = elim (dec_lt (length f) 64) [
  | yes short ↦ absurd (false≢true (sym (is_pe_short f short) ∙ h))
  | no long ↦
      let fits : 64 ≤ length f = omega arith in
      let (m, z, found) = marks _ _ _ (sym (is_pe_long f fits) ∙ h) in
      let (stub, image, splits, offset) =
        signature_found pe_signature f (u32_le f lfanew_at) found in
      record {
        header_fits = fits;
        starts_m = m;
        starts_z = z;
        stub = stub;
        image = image;
        splits = splits;
        offset = offset;
      }
]

IsPe-is_pe : (f : Bytes) → IsPe f → is_pe (file_reader f) (length f) ≡ true
IsPe-is_pe f d =
    rw (is_pe_long f d.header_fits, d.starts_m, d.starts_z)
      (signature_read pe_signature f _ (d.stub, d.image, d.splits, d.offset))

-- `isPE`, on a file read through `ReadAt`, answers true exactly when the file has at least 64
-- bytes, starts with "MZ", and holds "PE\0\0" at the offset that the word at 0x3C gives.
pub is_pe_iff : (f : Bytes) → (is_pe (file_reader f) (length f) ≡ true) ↔ IsPe f
is_pe_iff f = (is_pe-IsPe f, IsPe-is_pe f)
