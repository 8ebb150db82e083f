-- ===== src/Text/Contains.antt =====
-- `bytes.Contains` and `strings.Contains`.
use codesign.Common.{Bool, true, false, ◌&&◌, ◌||◌, [], ◌∷◌, Bytes, equal}

unfoldable pub has_prefix : Bytes → Bytes → Bool
has_prefix [] s = true
has_prefix (c ∷ mark) [] = false
has_prefix (c ∷ mark) (d ∷ s) = equal (c ∷ []) (d ∷ []) && has_prefix mark s

unfoldable pub contains : Bytes → Bytes → Bool
contains mark [] = has_prefix mark []
contains mark (c ∷ s) = let rest = contains mark s in has_prefix mark (c ∷ s) || rest
