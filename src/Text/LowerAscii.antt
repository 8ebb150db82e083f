-- ===== src/Text/LowerAscii.antt =====
-- `strings.ToLower` of ASCII text works byte by byte.
use mathlib.Core.List.{flat_map}
use codesign.Common.{
  ℕ, ◌+◌, ◌≡◌, refl, ap, false, [], ◌∷◌, map, arith, Bytes, any, leb, if◌then◌else◌,
}
use codesign.Text.Utf8.{within, encode_rune}
use codesign.Text.Fold.{Tables, lower_rune, to_lower}
use codesign.Text.Runes.{runes_ascii}

abbrev pub lower : ℕ → ℕ
lower c = if within b'A' b'Z' c then c + 32 else c

encode_lower :
    (u : Tables) (c : ℕ) → leb 0x80 c ≡ false → encode_rune (lower_rune u c) ≡ lower c ∷ []
unfolding encode_rune
encode_lower u c h = ground arith

flat_map-lower :
    (u : Tables) (s : Bytes)
    → any (λ b. leb 0x80 b) s ≡ false
    → flat_map (λ r. encode_rune (lower_rune u r)) s ≡ map lower s
unfolding flat_map any
flat_map-lower u [] h = refl
flat_map-lower u (c ∷ s) h =
    rw (encode_lower u c (ground arith)) (ap (◌∷◌ (lower c)) (flat_map-lower u s (ground arith)))

pub to_lower_ascii :
    (u : Tables) (s : Bytes) → any (λ b. leb 0x80 b) s ≡ false → to_lower u s ≡ map lower s
unfolding to_lower
to_lower_ascii u s h = rw (runes_ascii s h) (flat_map-lower u s h)
