-- ===== src/Text/Fold.antt =====
-- `strings.EqualFold` and `strings.ToLower`. Go's Unicode tables are data of its `unicode` package
-- and enter as a parameter; the ASCII part, which the program's own constants need, is written out.
use mathlib.Core.List.{flat_map}
use codesign.Common.{ℕ, ◌+◌, ◌-◌, Bool, map, Bytes, ltb, equal, if◌then◌else◌}
use codesign.Text.Utf8.{within, runes, encode_rune}

pub record Tables : Type 0 where
  -- The least rune that `unicode.SimpleFold` reaches from a rune beyond ASCII.
  pub fold : ℕ → ℕ
  -- `unicode.ToLower` of a rune beyond ASCII.
  pub lower : ℕ → ℕ

abbrev pub fold_rune : Tables → ℕ → ℕ
fold_rune u r = if ltb r 0x80 then (if within b'a' b'z' r then r - 32 else r) else u.fold r

abbrev pub lower_rune : Tables → ℕ → ℕ
lower_rune u r = if ltb r 0x80 then (if within b'A' b'Z' r then r + 32 else r) else u.lower r

unfoldable pub equal_fold : Tables → Bytes → Bytes → Bool
unfolding equal
equal_fold u s t = equal (map (fold_rune u) (runes s)) (map (fold_rune u) (runes t))

unfoldable pub to_lower : Tables → Bytes → Bytes
to_lower u s = flat_map (λ r. encode_rune (lower_rune u r)) (runes s)
