-- ===== src/Text/Utf8.antt =====
-- Go's decoding of a string into runes, with U+FFFD for each byte that starts no rune, and the
-- encoding of a rune.
use codesign.Common.{
  ℕ, zero, suc, ◌+◌, ◌-◌, ◌*◌, ◌/◌, ◌%◌, Bool, ◌&&◌, ◌||◌, List, [], ◌∷◌, Bytes, ltb, leb, ◌==◌,
  if◌then◌else◌,
}

abbrev pub within : ℕ → ℕ → ℕ → Bool
within lo hi c = leb lo c && leb c hi

abbrev pub is_cont : ℕ → Bool
is_cont c = within 0x80 0xBF c

abbrev pub rune_error : ℕ × ℕ
rune_error = (0xFFFD, 1)

-- The range of the second byte depends on the first: no overlong form, surrogate or large value.
second_fits : ℕ → ℕ → Bool
second_fits a b =
    if a == 0xE0
    then within 0xA0 0xBF b
    else if a == 0xED
    then within 0x80 0x9F b
    else if a == 0xF0
    then within 0x90 0xBF b
    else if a == 0xF4
    then within 0x80 0x8F b
    else is_cont b

decode_three : ℕ → ℕ → Bytes → ℕ × ℕ
decode_three a b [] = rune_error
decode_three a b (c ∷ s) =
    if is_cont c then (((a % 16) * 64 + b % 64) * 64 + c % 64, 3) else rune_error

decode_four : ℕ → ℕ → Bytes → ℕ × ℕ
decode_four a b [] = rune_error
decode_four a b (c ∷ []) = rune_error
decode_four a b (c ∷ d ∷ s) =
    if is_cont c && is_cont d
    then ((((a % 8) * 64 + b % 64) * 64 + c % 64) * 64 + d % 64, 4)
    else rune_error

decode_multi : ℕ → Bytes → ℕ × ℕ
unfolding second_fits decode_three decode_four
decode_multi a [] = rune_error
decode_multi a (b ∷ s) =
    if within 0xC2 0xDF a && is_cont b
    then ((a % 32) * 64 + b % 64, 2)
    else if within 0xE0 0xEF a && second_fits a b
    then decode_three a b s
    else if within 0xF0 0xF4 a && second_fits a b
    then decode_four a b s
    else rune_error

-- `utf8.DecodeRune`: the rune and its number of bytes, for the first byte and those behind it.
unfoldable pub decode_rune : ℕ → Bytes → ℕ × ℕ
unfolding decode_multi
decode_rune a s = if ltb a 0x80 then (a, 1) else decode_multi a s

-- `for _, r := range s`; the number counts the bytes of the last rune that are still to skip.
unfoldable pub runes_skip : ℕ → Bytes → List ℕ
runes_skip k [] = []
runes_skip (suc k) (b ∷ s) = runes_skip k s
runes_skip zero (b ∷ s) = (decode_rune b s).0 ∷ runes_skip ((decode_rune b s).1 - 1) s

abbrev pub runes : Bytes → List ℕ
runes = runes_skip 0

-- `utf8.AppendRune`: what is no code point is written as U+FFFD.
unfoldable pub encode_rune : ℕ → Bytes
encode_rune r =
    if ltb r 0x80
    then r ∷ []
    else if ltb r 0x800
    then (0xC0 + r / 64) ∷ (0x80 + r % 64) ∷ []
    else if within 0xD800 0xDFFF r || ltb 0x10FFFF r
    then 0xEF ∷ 0xBF ∷ 0xBD ∷ []
    else if ltb r 0x10000
    then (0xE0 + r / 4096) ∷ (0x80 + (r / 64) % 64) ∷ (0x80 + r % 64) ∷ []
    else (0xF0 + r / 262144)
      ∷ (0x80 + (r / 4096) % 64)
      ∷ (0x80 + (r / 64) % 64)
      ∷ (0x80 + r % 64)
      ∷ []
