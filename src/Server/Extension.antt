-- ===== src/Server/Extension.antt =====
-- `safeExtension`, `sanitizedExt` and `compatibleExt` of server/server.go: the extension of the
-- temporary files that the signing tool reads and writes.
pub mod Laws
use codesign.Common.{
  ℕ, Bool, not, ◌&&◌, ◌||◌, [], ◌∷◌, List, Bytes, codes, length, drop, ltb, any, equal,
  if◌then◌else◌,
}
use codesign.Text.FilePath.{base, ext}
use codesign.Text.Fold.{Tables, to_lower}
use codesign.Text.Utf8.{within, runes}
use codesign.Server.Detect.{Kind, exe, msi, kind_ext}

-- Not a lower-case letter or a digit.
abbrev pub is_odd_char : ℕ → Bool
is_odd_char r = not (within b'a' b'z' r) && not (within b'0' b'9' r)

abbrev pub max_extension : ℕ
max_extension = 6

-- What is left to check of the lower-cased extension.
unfoldable pub checked_ext : Bytes → Bytes
checked_ext e =
    if ltb (length e) 2 || ltb max_extension (length e)
    then []
    else if any is_odd_char (runes (drop 1 e))
    then []
    else e

unfoldable pub sanitized_ext : Tables → Bytes → Bytes
sanitized_ext u filename = checked_ext (to_lower u (ext (base filename)))

abbrev pub image_exts : List Bytes
image_exts =
    codes ".exe" ∷ codes ".dll" ∷ codes ".sys" ∷ codes ".efi" ∷ codes ".ocx" ∷ codes ".cpl" ∷ []

unfoldable pub compatible_ext : Bytes → Kind → Bool
compatible_ext e exe = any (equal e) image_exts
compatible_ext e msi = equal e (codes ".msi")

unfoldable pub safe_extension : Tables → Bytes → Kind → Bytes
safe_extension u filename kind =
    let e = sanitized_ext u filename in if not (compatible_ext e kind) then kind_ext kind else e
