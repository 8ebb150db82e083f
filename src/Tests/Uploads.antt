-- ===== src/Tests/Uploads.antt =====
-- Uploads: a small PE image, a small installer package, and a file that is neither.
use codesign.Common.{
  if◌then◌else◌, ℕ, zero, suc, ◌+◌, ◌^◌, ◌<◌, ◌≡◌, ◌↔◌, refl, true, [], ◌∷◌, ◌++◌, arith, Bytes,
  codes, length, equal,
}
use codesign.Common.Errors.{ok, err, sentinel, not_signable}
use codesign.Server.Detect.{
  kind_ext, file_reader, dir_offset, dir_entry_len, cfbf_magic, pe_signature, compound_root_clsid,
  is_installer_clsid, is_pe, is_msi, exe, msi, detect_kind,
}
use codesign.Server.Detect.Kinds.{IsMsi, IsInstaller, installer_clsid, is_installer_clsid_iff}
use codesign.Server.Detect.Msi.{dir_offset_bound}
use codesign.Server.Detect.Pe.{IsPe}
use codesign.Server.Detect.Verdict.{detect_kind_iff}
use codesign.Server.Extension.{compatible_ext, safe_extension}
use codesign.Server.Extension.Laws.{safe_extension-compatible, IsExt}
use codesign.Tests.Tables.{plain_tables}
use codesign.Text.Fold.{to_lower}
use codesign.Text.FilePath.{base, ext}

abbrev zeros : ℕ → Bytes
zeros zero = []
zeros (suc n) = 0 ∷ zeros n

-- "MZ", the offset 0x40 at 0x3C, and the signature there.
abbrev pub tiny_pe : Bytes
tiny_pe = b'M' ∷ b'Z' ∷ (zeros 58 ++ (0x40 ∷ 0 ∷ 0 ∷ 0 ∷ pe_signature))

-- A compound file of 512-byte sectors whose root entry, in sector 0, is of this class.
abbrev compound : Bytes → Bytes
compound clsid =
    cfbf_magic
    ++ (zeros 22
        ++ (9
            ∷ 0
            ∷ (zeros 16 ++ (0 ∷ 0 ∷ 0 ∷ 0 ∷ (zeros 460 ++ (zeros 0x50 ++ (clsid ++ zeros 32)))))))

abbrev tiny_msi : Bytes
tiny_msi = compound (installer_clsid 0x84)

-- The class id of a legacy Word document.
abbrev word_document : Bytes
word_document =
    compound (0x06 ∷ 0x09 ∷ 0x02 ∷ 0 ∷ 0 ∷ 0 ∷ 0 ∷ 0 ∷ 0xC0 ∷ 0 ∷ 0 ∷ 0 ∷ 0 ∷ 0 ∷ 0 ∷ 0x46 ∷ [])

tiny_pe_is_exe : detect_kind (ok (length tiny_pe)) (file_reader tiny_pe) ≡ ok exe
unfolding detect_kind is_pe file_reader equal
tiny_pe_is_exe = refl

tiny_msi_is_msi : detect_kind (ok (length tiny_msi)) (file_reader tiny_msi) ≡ ok msi
unfolding detect_kind is_pe is_msi compound_root_clsid is_installer_clsid file_reader equal
tiny_msi_is_msi = refl

word_document_is_refused :
    detect_kind (ok (length word_document)) (file_reader word_document)
    ≡ err (sentinel not_signable)
unfolding detect_kind is_pe is_msi compound_root_clsid is_installer_clsid file_reader equal
word_document_is_refused = refl

detect_kind_iff_example :
    ((detect_kind (ok (length tiny_msi)) (file_reader tiny_msi) ≡ ok exe) ↔ IsPe tiny_msi)
    × ((detect_kind (ok (length tiny_msi)) (file_reader tiny_msi) ≡ ok msi) ↔ IsMsi tiny_msi)
    × ((detect_kind (ok (length tiny_msi)) (file_reader tiny_msi) ≡ err (sentinel not_signable))
        ↔ ((¬ IsPe tiny_msi) × (¬ IsMsi tiny_msi)))
detect_kind_iff_example = detect_kind_iff tiny_msi (omega arith)

is_installer_clsid_iff_example :
    (is_installer_clsid (installer_clsid 0x86) ≡ true) ↔ IsInstaller (installer_clsid 0x86)
is_installer_clsid_iff_example = is_installer_clsid_iff (installer_clsid 0x86) (omega arith)

dir_offset_bound_example : dir_offset tiny_msi + dir_entry_len < 2 ^ 63
dir_offset_bound_example = dir_offset_bound tiny_msi (omega arith) refl

safe_extension-compatible_example :
    (safe_extension plain_tables (codes "dir/setup.DLL") exe ≡ (
      if compatible_ext (to_lower plain_tables (ext (base (codes "dir/setup.DLL")))) exe
      then to_lower plain_tables (ext (base (codes "dir/setup.DLL")))
      else kind_ext exe))
    × (compatible_ext (safe_extension plain_tables (codes "dir/setup.DLL") exe) exe ≡ true)
    × IsExt (safe_extension plain_tables (codes "dir/setup.DLL") exe)
safe_extension-compatible_example =
    safe_extension-compatible plain_tables (codes "dir/setup.DLL") exe
