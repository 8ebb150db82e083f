-- ===== src/Server/Detect/Verdict.antt =====
-- The three answers of `detectKind`.
use codesign.Common.{
  ◌≡◌, refl, ap, ◌↔◌, Bool, true, false, [], ◌∷◌, ◌++◌, arith, Bytes, length, get_or, if◌then◌else◌,
}
use codesign.Common.Errors.{Result, ok, err, sentinel, not_signable}
use codesign.Server.Detect.{file_reader, cfbf_magic, is_pe, is_msi, Kind, exe, msi, detect_kind}
use codesign.Server.Detect.Bounds.{AreBytes}
use codesign.Server.Detect.Pe.{IsPe, is_pe_iff}
use codesign.Server.Detect.Kinds.{IsMsi, is_msi_iff}

magic_first :
    (f stub image : Bytes)
    → f ≡ stub ++ (cfbf_magic ++ image)
    → length stub ≡ 0
    → get_or f 0 0 ≡ 0xD0
magic_first f [] image e h = ap (λ (s : Bytes). get_or s 0 0) e
magic_first f (x ∷ stub) image e h = absurd (omega arith)

-- No file is of both kinds, so the order of the two tests does not matter.
IsPe-IsMsi : (f : Bytes) → IsPe f → ¬ IsMsi f
IsPe-IsMsi f p m =
    let (stub, image, splits, at) = m.is_compound in
    absurd (omega (arith, p.starts_m, magic_first f stub image splits at))

-- The verdict as a function of the two tests.
abbrev verdict : Bool → Bool → Result Kind
verdict pe ms = if pe then ok exe else if ms then ok msi else err (sentinel not_signable)

verdict_exe : (t u : Bool) → (verdict t u ≡ ok exe) ↔ (t ≡ true)
verdict_exe t u = (ground arith, ground arith)

verdict_msi : (t u : Bool) → (verdict t u ≡ ok msi) ↔ ((t ≡ false) × (u ≡ true))
verdict_msi t u = (ground arith, ground arith)

verdict_none :
    (t u : Bool) → (verdict t u ≡ err (sentinel not_signable)) ↔ ((t ≡ false) × (u ≡ false))
verdict_none t u = (ground arith, ground arith)

false_of {ℓ} : {A : Type ℓ} (t : Bool) → (t ≡ true) ↔ A → ¬ A → t ≡ false
false_of true e n = absurd (n (e.0 refl))
false_of false e n = refl

not_of {ℓ} : {A : Type ℓ} (t : Bool) → (t ≡ true) ↔ A → t ≡ false → ¬ A
not_of t e h a = cc (h, e.1 a)

-- `detectKind` on an upload of bytes answers `.exe` exactly for a PE image, `.msi` exactly for a
-- compound file with no other root class id than an installer's, and refuses as not signable
-- exactly the files that are neither.
pub detect_kind_iff :
    (f : Bytes)
    → AreBytes f
    → ((detect_kind (ok (length f)) (file_reader f) ≡ ok exe) ↔ IsPe f)
      × ((detect_kind (ok (length f)) (file_reader f) ≡ ok msi) ↔ IsMsi f)
      × ((detect_kind (ok (length f)) (file_reader f) ≡ err (sentinel not_signable))
          ↔ ((¬ IsPe f) × (¬ IsMsi f)))
unfolding detect_kind
detect_kind_iff f bytes =
    let pe = is_pe (file_reader f) (length f) in
    let ms = is_msi (file_reader f) (length f) in
    let p = is_pe_iff f in
    let m = is_msi_iff f bytes in
    (
      (λ h. p.0 ((verdict_exe pe ms).0 h), λ d. (verdict_exe pe ms).1 (p.1 d)),
      (
        λ h. m.0 ((verdict_msi pe ms).0 h).1,
        λ d. (verdict_msi pe ms).1 (false_of pe p (λ x. IsPe-IsMsi f x d), m.1 d),
      ),
      (
        λ h. (not_of pe p ((verdict_none pe ms).0 h).0, not_of ms m ((verdict_none pe ms).0 h).1),
        λ d. (verdict_none pe ms).1 (false_of pe p d.0, false_of ms m d.1),
      ),
    )
