-- ===== src/Text/FoldAscii.antt =====
-- `strings.EqualFold` with an ASCII word that has no K and no S is the ASCII comparison without
-- regard to case.
use native.Mathlib.Decide.{dec_lt}
use codesign.Common.{
  ℕ, ◌-◌, ◌≤◌, ◌<◌, ◌≡◌, ◌≢◌, sym, ap, ◌∙◌, ◌↔◌, ◌⊎◌, true, [], ◌∷◌, map, arith, Bytes, lt→ltb,
  if◌then◌else◌, equal_iff,
}
use codesign.Text.Utf8.{within, runes_skip, runes}
use codesign.Text.Fold.{Tables, fold_rune, equal_fold}
use codesign.Text.Runes.{decode_rune_ascii, decode_rune_high}

-- In Unicode the only ASCII letters that a rune beyond ASCII folds to are K and S (the Kelvin sign
-- and the long s).
pub record FoldsApart (u : Tables) : Type 0 where
  pub apart : (r : ℕ) → 0x80 ≤ r → (0x80 ≤ u.fold r) ⊎ (u.fold r ≡ b'K') ⊎ (u.fold r ≡ b'S')

abbrev pub upper : ℕ → ℕ
upper c = if within b'a' b'z' c then c - 32 else c

-- The word is in ASCII capitals, without K and S.
abbrev pub IsPlain : Bytes → Type 0
IsPlain [] = Unit {0}
IsPlain (c ∷ w) = (c < 0x80) × (c ≢ b'K') × (c ≢ b'S') × IsPlain w

fold_low : (u : Tables) (b : ℕ) → b < 0x80 → fold_rune u b ≡ upper b
fold_low u b h = rw (lt→ltb b 0x80 h)

fold_high :
    (u : Tables)
    → FoldsApart u
    → (r c : ℕ) → 0x80 ≤ r
    → c < 0x80
    → c ≢ b'K'
    → c ≢ b'S'
    → fold_rune u r ≢ c
fold_high u t r c h lt k s = ground (arith, t.apart r h)

upper_high : (b c : ℕ) → 0x80 ≤ b → c < 0x80 → upper b ≢ c
upper_high b c h lt = ground arith

head_eq : {a b : ℕ} {s t : Bytes} → ◌≡◌ {A = Bytes} (a ∷ s) (b ∷ t) → (a ≡ b) × (s ≡ t)
head_eq e = (cc, cc)

folds_iff :
    (u : Tables)
    → FoldsApart u
    → (s w : Bytes) → IsPlain w
    → (map (fold_rune u) (runes s) ≡ w) ↔ (map upper s ≡ w)
unfolding runes_skip
folds_iff u t [] w p = (λ e. e, λ e. e)
folds_iff u t (b ∷ s) [] p = (λ e. cc, λ e. cc)
folds_iff u t (b ∷ s) (c ∷ w) (lt, k, sh, p) = elim (dec_lt b 0x80) [
  | yes low ↦
      rw (decode_rune_ascii b s low, fold_low u b low)
        ((
          λ e. let (h, r) = head_eq e in cc (h, (folds_iff u t s w p).0 r),
          λ e. let (h, r) = head_eq e in cc (h, (folds_iff u t s w p).1 r),
        ))
  | no high ↦ (
    λ e. absurd (fold_high u t _ c (decode_rune_high b s (omega arith)) lt k sh (head_eq e).0),
    λ e. absurd (upper_high b c (omega arith) lt (head_eq e).0),
  )
]

-- A word of plain capitals is met exactly by its variants in ASCII case.
pub equal_fold_iff :
    (u : Tables)
    → FoldsApart u
    → (s w : Bytes) → IsPlain (map upper w)
    → runes w ≡ w
    → map (fold_rune u) w ≡ map upper w
    → (equal_fold u s w ≡ true) ↔ (map upper s ≡ map upper w)
unfolding equal_fold
equal_fold_iff u t s w p r f =
    let both = equal_iff (map (fold_rune u) (runes s)) (map (fold_rune u) (runes w)) in
    let word : map (fold_rune u) (runes w) ≡ map upper w = ap (map (fold_rune u)) r ∙ f in
    let same = folds_iff u t s (map upper w) p in
    (λ h. same.0 (both.0 h ∙ word), λ h. both.1 (same.1 h ∙ sym word))
