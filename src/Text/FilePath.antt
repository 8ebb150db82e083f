-- ===== src/Text/FilePath.antt =====
-- `filepath.Base` and `filepath.Ext`, where the separator is `/`.
use mathlib.Core.List.{reverse}
use codesign.Common.{ℕ, Bool, not, ◌&&◌, [], ◌∷◌, Bytes, ◌==◌, any, is_empty, codes, if◌then◌else◌}

abbrev pub is_separator : ℕ → Bool
is_separator c = c == b'/'

unfoldable pub drop_separators : Bytes → Bytes
drop_separators [] = []
drop_separators (c ∷ s) = if is_separator c then drop_separators s else c ∷ s

unfoldable pub until_separator : Bytes → Bytes
until_separator [] = []
until_separator (c ∷ s) = if is_separator c then [] else c ∷ until_separator s

-- An empty path has the base "."; a path of separators alone, "/".
unfoldable pub base : Bytes → Bytes
unfolding drop_separators until_separator
base path =
    let name = reverse (until_separator (drop_separators (reverse path))) in
    if is_empty path then codes "." else if is_empty name then codes "/" else name

-- The suffix from the last dot of the last element.
unfoldable pub ext : Bytes → Bytes
unfolding any
ext [] = []
ext (c ∷ s) =
    let rest = ext s in
    if not (is_empty rest)
    then rest
    else if c == b'.' && not (any is_separator s)
    then c ∷ s
    else []
