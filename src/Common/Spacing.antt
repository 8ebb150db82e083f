-- ===== src/Common/Spacing.antt =====
-- Times that keep a distance.
use mathlib.Core.List.{List, [], ◌∷◌}
use mathlib.Core.Option.{Option, none, some}
use native.Mathlib.Omega.{arith}
use Prim.Native.Nat.{ℕ, ◌+◌, ◌≤◌}

-- Each time is at least this gap behind the one before it.
abbrev pub Spaced : ℕ → Option ℕ → List ℕ → Type 0
Spaced gap last [] = Unit {0}
Spaced gap none (x ∷ xs) = Spaced gap (some x) xs
Spaced gap (some a) (x ∷ xs) = (a + gap ≤ x) × Spaced gap (some x) xs

pub Spaced-earlier :
    (gap a b : ℕ) (xs : List ℕ) → b ≤ a → Spaced gap (some a) xs → Spaced gap (some b) xs
Spaced-earlier gap a b [] h s = tt
Spaced-earlier gap a b (x ∷ xs) h s = (omega arith, s.1)
