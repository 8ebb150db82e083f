-- ===== src/Oidc/Base64.antt =====
-- `base64.RawURLEncoding.DecodeString` and `big.Int.SetBytes`, which read the numbers of a key.
use codesign.Common.{
  ℕ, ◌+◌, ◌-◌, ◌*◌, ◌/◌, ◌%◌, ◌||◌, [], ◌∷◌, Option, none, some, Bytes, ◌==◌, if◌then◌else◌,
}
use codesign.Common.Options.{◌>>=◌}
use codesign.Text.Utf8.{within}

-- The six bits of a letter of the URL alphabet.
unfoldable pub sextet : ℕ → Option ℕ
sextet c =
    if within b'A' b'Z' c
    then some (c - 65)
    else if within b'a' b'z' c
    then some (c - 71)
    else if within b'0' b'9' c
    then some (c + 4)
    else if c == b'-'
    then some 62
    else if c == b'_'
    then some 63
    else none

-- The decoder skips line ends.
abbrev without_line_ends : Bytes → Bytes
without_line_ends [] = []
without_line_ends (c ∷ s) =
    let rest = without_line_ends s in if c == b'\r' || c == b'\n' then rest else c ∷ rest

unfoldable sextets : Bytes → Option Bytes
unfolding sextet
sextets [] = some []
sextets (c ∷ s) = let rest = sextets s in do a ← sextet c; t ← rest; some (a ∷ t)

-- Four letters are three bytes; two or three letters may stand at the end. Bits that are left over
-- are not looked at.
unfoldable join_sextets : Bytes → Option Bytes
join_sextets [] = some []
join_sextets (a ∷ []) = none
join_sextets (a ∷ b ∷ []) = some ((a * 4 + b / 16) ∷ [])
join_sextets (a ∷ b ∷ c ∷ []) = some ((a * 4 + b / 16) ∷ ((b % 16) * 16 + c / 4) ∷ [])
join_sextets (a ∷ b ∷ c ∷ d ∷ s) =
    let rest = join_sextets s in
    do t ← rest; some ((a * 4 + b / 16) ∷ ((b % 16) * 16 + c / 4) ∷ ((c % 4) * 64 + d) ∷ t)

unfoldable pub decode_base64 : Bytes → Option Bytes
unfolding sextets join_sextets
decode_base64 s = do bits ← sextets (without_line_ends s); join_sextets bits

-- The number that big-endian bytes stand for, behind the number read so far.
unfoldable pub big_endian : ℕ → Bytes → ℕ
big_endian n [] = n
big_endian n (b ∷ s) = big_endian (n * 256 + b) s
