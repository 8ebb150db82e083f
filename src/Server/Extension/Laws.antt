-- ===== src/Server/Extension/Laws.antt =====
-- The extension that a request's file name gives fits the detected kind, and is kept where it can
-- be.
use codesign.Common.{
  not, ap, sym, ℕ, ◌≤◌, ◌≡◌, ◌≢◌, refl, ◌∙◌, inl, inr, Bool, true, false, ◌||◌, [], ◌∷◌, ◌++◌, List,
  map, arith, Bytes, codes, length, drop, ltb, leb, any, equal, equal_iff, if◌then◌else◌,
  Bool-cases,
}
use codesign.Text.FilePath.{is_separator, base, ext}
use codesign.Text.Fold.{Tables, to_lower}
use codesign.Text.LowerAscii.{lower, to_lower_ascii}
use codesign.Text.Paths.{IsName, is_dot, any-append, base_name, ext-append}
use codesign.Text.Runes.{any-runes_high}
use codesign.Server.Detect.{Kind, exe, msi, kind_ext}
use codesign.Server.Extension.{
  is_odd_char, checked_ext, sanitized_ext, image_exts, compatible_ext, safe_extension,
}

kind_ext-compatible : (k : Kind) → compatible_ext (kind_ext k) k ≡ true
unfolding compatible_ext any equal
kind_ext-compatible exe = refl
kind_ext-compatible msi = refl

empty-compatible : (k : Kind) → compatible_ext [] k ≡ false
unfolding compatible_ext any equal
empty-compatible exe = refl
empty-compatible msi = refl

-- A dot and one to five lower-case letters or digits.
pub record IsExt (e : Bytes) : Type 0 where
  pub length_low : 2 ≤ length e
  pub length_high : length e ≤ 6
  pub plain : any is_odd_char (drop 1 e) ≡ false

odd_high : (r : ℕ) → 0x80 ≤ r → is_odd_char r ≡ true
odd_high r h = ground arith

-- A byte-wise reading of the loop over runes.
checked_ext_lem :
    (e : Bytes)
    → checked_ext e ≡ (
        if ltb (length e) 2 || ltb 6 (length e)
        then []
        else if any is_odd_char (drop 1 e)
        then []
        else e)
unfolding checked_ext
checked_ext_lem e = rw (any-runes_high is_odd_char odd_high (drop 1 e))

kept_or_empty :
    (n : ℕ) (odd : Bool) (e : Bytes)
    → (if ltb n 2 || ltb 6 n then [] else if odd then [] else e) ≢ []
    → (2 ≤ n) × (n ≤ 6) × (odd ≡ false)
kept_or_empty n odd e h = ground arith

all_kept :
    (n : ℕ) (odd : Bool) (e : Bytes)
    → 2 ≤ n
    → n ≤ 6
    → odd ≡ false
    → (if ltb n 2 || ltb 6 n then [] else if odd then [] else e) ≡ e
all_kept n odd e lo hi plain = ground arith

-- An extension is kept as it is.
checked_ext_kept : (e : Bytes) → IsExt e → checked_ext e ≡ e
checked_ext_kept e h =
    checked_ext_lem e
    ∙ all_kept (length e) (any is_odd_char (drop 1 e)) e h.length_low h.length_high h.plain

checked_ext-IsExt : (e : Bytes) → checked_ext e ≢ [] → IsExt e
checked_ext-IsExt e ne =
    let (lo, hi, plain) =
      kept_or_empty (length e) (any is_odd_char (drop 1 e)) e (λ h. ne (checked_ext_lem e ∙ h)) in
    record { length_low = lo; length_high = hi; plain = plain }

-- What `sanitizedExt` returns is empty, or a dot and one to five lower-case letters or digits, and
-- then it is the lower-cased extension of the file name.
pub sanitized_ext-IsExt :
    (u : Tables) (filename : Bytes)
    → sanitized_ext u filename ≢ []
    → IsExt (sanitized_ext u filename)
      × (sanitized_ext u filename ≡ to_lower u (ext (base filename)))
unfolding sanitized_ext
sanitized_ext-IsExt u filename ne =
    let e = to_lower u (ext (base filename)) in
    let is_ext = checked_ext-IsExt e ne in
    let kept = checked_ext_kept e is_ext in (rw kept is_ext, kept)

AllExts : List Bytes → Type 0
AllExts [] = Unit {0}
AllExts (x ∷ xs) = IsExt x × AllExts xs

any-IsExt : (e : Bytes) (xs : List Bytes) → AllExts xs → any (equal e) xs ≡ true → IsExt e
unfolding any AllExts
any-IsExt e [] h t = absurd (ground arith)
any-IsExt e (x ∷ xs) h t = elim (Bool-cases (equal e x)) [
  | inl same ↦ rw ((equal_iff e x).0 same) h.0
  | inr other ↦ any-IsExt e xs h.1 (rw other at t)
]

image_exts-AllExts : AllExts image_exts
unfolding AllExts any
image_exts-AllExts = ground arith

compatible-IsExt : (e : Bytes) (k : Kind) → compatible_ext e k ≡ true → IsExt e
unfolding compatible_ext any
compatible-IsExt e exe h = any-IsExt e image_exts image_exts-AllExts h
compatible-IsExt e msi h = rw ((equal_iff e (codes ".msi")).0 h) (ground arith)

-- The check of the length and of the characters makes no difference to what is compatible.
checked_ext-compatible :
    (e : Bytes) (k : Kind) → compatible_ext (checked_ext e) k ≡ compatible_ext e k
checked_ext-compatible e k = elim (Bool-cases (compatible_ext e k)) [
  | inl fits ↦ ap (λ x. compatible_ext x k) (checked_ext_kept e (compatible-IsExt e k fits))
  | inr other ↦ misses other (checked_ext e) refl ∙ sym other
]
  where
    misses :
        compatible_ext e k ≡ false
        → (x : Bytes) → checked_ext e ≡ x
        → compatible_ext (checked_ext e) k ≡ false
    misses other [] is_x = ap (λ x. compatible_ext x k) is_x ∙ empty-compatible k
    misses other (c ∷ x) is_x =
        ap (λ x. compatible_ext x k)
          (checked_ext_kept e (checked_ext-IsExt e (λ none_left. cc (sym none_left ∙ is_x))))
        ∙ other

chosen_ext :
    (e : Bytes) (k : Kind)
    → (if not (compatible_ext (checked_ext e) k) then kind_ext k else checked_ext e)
      ≡ (if compatible_ext e k then e else kind_ext k)
chosen_ext e k = elim (Bool-cases (compatible_ext e k)) [
  | inl fits ↦ rw (checked_ext_kept e (compatible-IsExt e k fits), fits) refl
  | inr other ↦ rw (checked_ext-compatible e k, other) refl
]

picked-compatible :
    (e : Bytes) (k : Kind) → compatible_ext (if compatible_ext e k then e else kind_ext k) k ≡ true
picked-compatible e k = elim (Bool-cases (compatible_ext e k)) [
  | inl fits ↦ rw fits fits
  | inr other ↦ rw other (kind_ext-compatible k)
]

-- Whatever the file name, the extension of the temporary files is the lower-cased one of the file
-- name, if `compatibleExt` accepts that for the detected kind, and the kind's own one otherwise:
-- the checks of `sanitizedExt` refuse no other one. So it is one that `compatibleExt` accepts, and
-- it is a dot and one to five lower-case letters or digits.
pub safe_extension-compatible :
    (u : Tables) (filename : Bytes) (k : Kind)
    → (safe_extension u filename k ≡ (
        if compatible_ext (to_lower u (ext (base filename))) k
        then to_lower u (ext (base filename))
        else kind_ext k))
      × (compatible_ext (safe_extension u filename k) k ≡ true)
      × IsExt (safe_extension u filename k)
unfolding safe_extension sanitized_ext
safe_extension-compatible u filename k =
    let e = to_lower u (ext (base filename)) in
    let fits = ap (λ x. compatible_ext x k) (chosen_ext e k) ∙ picked-compatible e k in
    (chosen_ext e k, fits, compatible-IsExt _ k fits)

joined-IsName : (stem s : Bytes) → IsName stem → IsName s → IsName (stem ++ (b'.' ∷ s))
unfolding any
joined-IsName stem s h k = ground (arith, any-append is_separator stem (b'.' ∷ s))

joined-ne-nil : (stem s : Bytes) → stem ++ (b'.' ∷ s) ≢ []
joined-ne-nil [] s h = cc
joined-ne-nil (c ∷ stem) s h = cc

dotted_ascii :
    (s : Bytes) → any (λ b. leb 0x80 b) s ≡ false → any (λ b. leb 0x80 b) (b'.' ∷ s) ≡ false
unfolding any
dotted_ascii s h = h

-- For a file name without separators whose part behind the last dot is ASCII, in whatever case, the
-- lower-cased extension is the one that is used, if it is compatible with the detected kind.
pub safe_extension_kept :
    (u : Tables) (stem s : Bytes) (k : Kind)
    → IsName stem
    → IsName s
    → any is_dot s ≡ false
    → any (λ b. leb 0x80 b) s ≡ false
    → compatible_ext (map lower (b'.' ∷ s)) k ≡ true
    → safe_extension u (stem ++ (b'.' ∷ s)) k ≡ map lower (b'.' ∷ s)
unfolding safe_extension sanitized_ext
safe_extension_kept u stem s k name ext_name plain ascii fits =
    rw
      (
        base_name (stem ++ (b'.' ∷ s)) (joined-IsName stem s name ext_name) (joined-ne-nil stem s),
        ext-append stem s ext_name plain,
        to_lower_ascii u (b'.' ∷ s) (dotted_ascii s ascii),
      )
      (rw (checked_ext_kept (map lower (b'.' ∷ s)) (compatible-IsExt _ k fits), fits))
