-- ===== src/Text/Cuts.antt =====
-- `strings.Cut` splits at the first separator.
use codesign.Common.{
  ℕ, ◌≡◌, ◌↔◌, false, inl, inr, [], ◌∷◌, ◌++◌, some, arith, Bytes, any, ◌==◌, Option-cases,
  Bool-cases,
}
use codesign.Text.Space.{cut}

abbrev pub NoByte : ℕ → Bytes → Type 0
NoByte sep s = any (λ c. c == sep) s ≡ false

-- The part before the separator, which is free of it, and the part behind it.
pub record Cut (sep : ℕ) (s before after : Bytes) : Type 0 where
  pub joined : s ≡ before ++ (sep ∷ after)
  pub is_first : NoByte sep before

cut-Cut : (sep : ℕ) (s a b : Bytes) → cut sep s ≡ some (a, b) → Cut sep s a b
unfolding cut any
cut-Cut sep [] a b h = cc
cut-Cut sep (c ∷ s) a b h = elim (Bool-cases (c == sep)) [
  | inl here ↦ ground arith
  | inr later ↦ elim (Option-cases (cut sep s)) [
    | inl nowhere ↦ ground (arith, nowhere)
    | inr ((x, y), found) ↦ ground (arith, found, cut-Cut sep s x y found)
  ]
]

Cut-cut : (sep : ℕ) (a b : Bytes) → NoByte sep a → cut sep (a ++ (sep ∷ b)) ≡ some (a, b)
unfolding cut any
Cut-cut sep [] b h = ground arith
Cut-cut sep (c ∷ a) b h = ground (arith, Cut-cut sep a b)

pub cut_iff : (sep : ℕ) (s a b : Bytes) → (cut sep s ≡ some (a, b)) ↔ Cut sep s a b
cut_iff sep s a b = (cut-Cut sep s a b, λ c. rw c.joined (Cut-cut sep a b c.is_first))
