-- ===== src/Server/Detect/Signature.antt =====
-- A signature read at an offset of a file, and the file split at it.
use codesign.Common.{
  ℕ, ◌+◌, ◌≤◌, ◌≡◌, sym, ◌∙◌, inl, inr, Bool, true, ◌++◌, arith, Option-cases, Bytes, length, take,
  drop, length-take, equal, equal_iff,
}
use codesign.Server.Detect.Bounds.{
  file_reader-some, file_reader-eq-some, slice_splits, slice-append, length-splits,
}
use codesign.Server.Detect.{slice, file_reader, reads}

-- The bytes `s` stand in the file behind `off` others.
abbrev pub SignatureAt : Bytes → Bytes → ℕ → Type 0
SignatureAt s f off =
    (stub : Bytes) × (image : Bytes) × (f ≡ stub ++ (s ++ image)) × (length stub ≡ off)

abbrev reads_signature : Bytes → Bytes → ℕ → Bool
reads_signature s f off = reads (file_reader f off (length s)) λ b. equal b s

pub signature_found : (s f : Bytes) (off : ℕ) → reads_signature s f off ≡ true → SignatureAt s f off
signature_found s f off h = elim (Option-cases (file_reader f off (length s))) [
  | inl no_read ↦ absurd (ground (arith, no_read, h))
  | inr (b, read) ↦
      let n : ℕ = length s in
      let (fits, is_slice) = file_reader-eq-some f off n read in
      let found : slice off n f ≡ s = sym is_slice ∙ (equal_iff b s).0 (rw read at h) in
      (
        take off f,
        drop n (drop off f),
        rw found at (slice_splits f off n),
        omega (arith, length-take off f),
      )
]

pub signature_read : (s f : Bytes) (off : ℕ) → SignatureAt s f off → reads_signature s f off ≡ true
signature_read s f off (stub, image, splits, at) =
    let fits : off + length s ≤ length f = omega (arith, length-splits stub s image splits) in
    rw (file_reader-some f off (length s) fits)
      ((equal_iff (slice off (length s) f) s).1 (rw (← at, splits) (slice-append stub s image)))
