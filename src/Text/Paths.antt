-- ===== src/Text/Paths.antt =====
-- The base and the extension of a file name.
use mathlib.Core.List.{reverse, reverse-append, reverse-reverse}
use codesign.Common.{
  ℕ, ◌≡◌, ◌≢◌, refl, Bool, false, ◌||◌, [], ◌∷◌, ◌++◌, arith, Bytes, any, ◌==◌, is_empty, codes,
  if◌then◌else◌,
}
use codesign.Text.FilePath.{is_separator, drop_separators, until_separator, base, ext}

-- No separator stands in the name.
abbrev pub IsName : Bytes → Type 0
IsName s = any is_separator s ≡ false

abbrev pub is_dot : ℕ → Bool
is_dot c = c == b'.'

pub any-append : (p : ℕ → Bool) (s t : Bytes) → any p (s ++ t) ≡ (any p s || any p t)
unfolding any
any-append p [] t = refl
any-append p (c ∷ s) t = ground (arith, any-append p s t)

any-reverse : (p : ℕ → Bool) (s : Bytes) → any p s ≡ false → any p (reverse s) ≡ false
unfolding any
any-reverse p [] h = h
any-reverse p (c ∷ s) h =
    rw (reverse-append (c ∷ []) s)
      (ground (arith, any-append p (reverse s) (c ∷ []), any-reverse p s))

drop_separators_name : (s : Bytes) → IsName s → drop_separators s ≡ s
unfolding drop_separators any
drop_separators_name [] h = refl
drop_separators_name (c ∷ s) h = ground arith

until_separator_name : (s : Bytes) → IsName s → until_separator s ≡ s
unfolding until_separator any
until_separator_name [] h = refl
until_separator_name (c ∷ s) h = ground (arith, until_separator_name s)

ext_plain : (s : Bytes) → any is_dot s ≡ false → ext s ≡ []
unfolding ext any
ext_plain [] h = refl
ext_plain (c ∷ s) h = ground (arith, ext_plain s)

-- The extension of a stem with a last part: that part, from its dot on.
pub ext-append :
    (stem s : Bytes) → IsName s → any is_dot s ≡ false → ext (stem ++ (b'.' ∷ s)) ≡ b'.' ∷ s
unfolding ext
ext-append [] s name plain = ground (arith, ext_plain s)
ext-append (c ∷ stem) s name plain = rw (ext-append stem s name plain)

last_element : (s : Bytes) → IsName s → reverse (until_separator (drop_separators (reverse s))) ≡ s
last_element s h =
    let back = any-reverse is_separator s h in
    rw (drop_separators_name (reverse s) back, until_separator_name (reverse s) back)
      (reverse-reverse s)

base_lem :
    (s : Bytes)
    → base s ≡ (
        let name = reverse (until_separator (drop_separators (reverse s))) in
        if is_empty s then codes "." else if is_empty name then codes "/" else name)
unfolding base
base_lem s = refl

pub base_name : (s : Bytes) → IsName s → s ≢ [] → base s ≡ s
base_name [] h ne = absurd (ne refl)
base_name (c ∷ s) h ne = rw (base_lem (c ∷ s), last_element (c ∷ s) h)
