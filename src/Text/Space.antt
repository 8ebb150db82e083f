-- ===== src/Text/Space.antt =====
-- `strings.TrimSpace`, `strings.Cut` and `strings.TrimSuffix`.
use mathlib.Core.List.{reverse}
use codesign.Common.{
  ℕ, zero, suc, Bool, ◌&&◌, ◌||◌, [], ◌∷◌, Option, none, some, Bytes, ◌==◌, if◌then◌else◌,
}
use codesign.Text.Utf8.{within, decode_rune}

-- `unicode.IsSpace`.
unfoldable pub is_space : ℕ → Bool
is_space r =
    within 9 13 r
    || r == 32
    || r == 0x85
    || r == 0xA0
    || r == 0x1680
    || within 0x2000 0x200A r
    || r == 0x2028
    || r == 0x2029
    || r == 0x202F
    || r == 0x205F
    || r == 0x3000

-- The number of bytes of the white-space rune that a string starts with, 0 if there is none.
space_size : ℕ → Bytes → ℕ
unfolding is_space decode_rune
space_size b s = if is_space (decode_rune b s).0 then (decode_rune b s).1 else 0

unfoldable pub trim_left : ℕ → Bytes → Bytes
unfolding space_size
trim_left k [] = []
trim_left (suc k) (b ∷ s) = trim_left k s
trim_left zero (b ∷ s) = elim (space_size b s) [ zero ↦ b ∷ s | suc k ↦ trim_left k s ]

-- The string is a white-space rune and nothing else.
is_space_rune : ℕ → Bytes → ℕ → Bool
unfolding is_space decode_rune
is_space_rune b s n = is_space (decode_rune b s).0 && (decode_rune b s).1 == n

-- The same at the end of a string, on the reversed string. A white-space rune has at most three
-- bytes.
space_size_rev : Bytes → ℕ
unfolding is_space_rune
space_size_rev [] = 0
space_size_rev (c ∷ []) = if is_space_rune c [] 1 then 1 else 0
space_size_rev (c ∷ b ∷ []) =
    if is_space_rune c [] 1 then 1 else if is_space_rune b (c ∷ []) 2 then 2 else 0
space_size_rev (c ∷ b ∷ a ∷ _) =
    if is_space_rune c [] 1
    then 1
    else if is_space_rune b (c ∷ []) 2
    then 2
    else if is_space_rune a (b ∷ c ∷ []) 3
    then 3
    else 0

unfoldable pub trim_left_rev : ℕ → Bytes → Bytes
unfolding space_size_rev
trim_left_rev k [] = []
trim_left_rev (suc k) (b ∷ s) = trim_left_rev k s
trim_left_rev zero (b ∷ s) = elim (space_size_rev (b ∷ s)) [
  | zero ↦ b ∷ s
  | suc k ↦ trim_left_rev k s
]

unfoldable pub trim_space : Bytes → Bytes
unfolding trim_left trim_left_rev
trim_space s = reverse (trim_left_rev 0 (reverse (trim_left 0 s)))

-- `strings.Cut` at a single byte; `none` where the separator is not found.
unfoldable pub cut : ℕ → Bytes → Option (Bytes × Bytes)
cut sep [] = none
cut sep (c ∷ s) =
    let rest = cut sep s in
    if c == sep then some ([], s) else elim rest [ none ↦ none | some (a, b) ↦ some (c ∷ a, b) ]

-- `strings.TrimSuffix` of a single byte.
unfoldable pub trim_suffix : ℕ → Bytes → Bytes
trim_suffix b [] = []
trim_suffix b (c ∷ []) = if c == b then [] else c ∷ []
trim_suffix b (c ∷ d ∷ s) = c ∷ trim_suffix b (d ∷ s)
