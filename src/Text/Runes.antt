-- ===== src/Text/Runes.antt =====
-- A test of ASCII runes alone may read a string byte by byte: no byte of a longer rune passes it.
use codesign.Common.{
  true, leb, ℕ, zero, suc, ◌-◌, ◌≤◌, ◌<◌, lt→ltb, Bool, false, ◌||◌, [], ◌∷◌, ◌≡◌, refl, ap, sym,
  ◌∙◌, arith, Bytes, leb, any,
}
use native.Mathlib.Decide.{dec_lt}
use codesign.Text.Utf8.{decode_rune, runes_skip, runes}

-- The first `k` bytes stand beyond ASCII.
abbrev pub Beyond : ℕ → Bytes → Type 0
Beyond zero s = Unit {0}
Beyond (suc k) [] = ⊥
Beyond (suc k) (b ∷ s) = (0x80 ≤ b) × Beyond k s

decode_rune-Beyond : (b : ℕ) (s : Bytes) → Beyond ((decode_rune b s).1 - 1) s
unfolding decode_rune
decode_rune-Beyond b [] = ground arith
decode_rune-Beyond b (c ∷ []) = ground arith
decode_rune-Beyond b (c ∷ d ∷ []) = ground arith
decode_rune-Beyond b (c ∷ d ∷ e ∷ s) = ground arith

-- The test holds of ASCII runes only.
abbrev pub IsAsciiTest : (ℕ → Bool) → Type 0
IsAsciiTest p = (r : ℕ) → 0x80 ≤ r → p r ≡ false

decode_rune_low : (b : ℕ) (s : Bytes) → b < 0x80 → (decode_rune b s).0 ≡ b
unfolding decode_rune
decode_rune_low b s h = rw (lt→ltb b 0x80 h)

pub decode_rune_high : (b : ℕ) (s : Bytes) → 0x80 ≤ b → 0x80 ≤ (decode_rune b s).0
unfolding decode_rune
decode_rune_high b [] h = ground arith
decode_rune_high b (c ∷ []) h = ground arith
decode_rune_high b (c ∷ d ∷ []) h = ground arith
decode_rune_high b (c ∷ d ∷ e ∷ s) h = ground arith

decode_rune-test :
    (p : ℕ → Bool) → IsAsciiTest p → (b : ℕ) (s : Bytes) → p (decode_rune b s).0 ≡ p b
decode_rune-test p ascii b s = elim (dec_lt b 0x80) [
  | yes low ↦ ap p (decode_rune_low b s low)
  | no high ↦ ascii _ (decode_rune_high b s (omega arith)) ∙ sym (ascii b (omega arith))
]

any-runes_skip :
    (p : ℕ → Bool)
    → IsAsciiTest p
    → (k : ℕ) (s : Bytes) → Beyond k s
    → any p (runes_skip k s) ≡ any p s
unfolding any runes_skip
any-runes_skip p ascii zero [] h = refl
any-runes_skip p ascii (suc k) [] h = refl
any-runes_skip p ascii (suc k) (b ∷ s) h = rw (ascii b h.0) (any-runes_skip p ascii k s h.1)
any-runes_skip p ascii zero (b ∷ s) h = rw (decode_rune-test p ascii b s) (
    ap (λ (t : Bool). p b || t)
      (any-runes_skip p ascii ((decode_rune b s).1 - 1) s (decode_rune-Beyond b s)))

-- Reading runes and reading bytes find the same ASCII rune.
pub any-runes : (p : ℕ → Bool) → IsAsciiTest p → (s : Bytes) → any p (runes s) ≡ any p s
any-runes p ascii s = any-runes_skip p ascii 0 s tt

-- The test holds of every rune beyond ASCII.
abbrev pub RefusesHigh : (ℕ → Bool) → Type 0
RefusesHigh p = (r : ℕ) → 0x80 ≤ r → p r ≡ true

pub decode_rune_ascii : (b : ℕ) (s : Bytes) → b < 0x80 → decode_rune b s ≡ (b, 1)
unfolding decode_rune
decode_rune_ascii b s h = rw (lt→ltb b 0x80 h)

-- A test that refuses all of non-ASCII text finds the same reading runes and reading bytes.
pub any-runes_high : (p : ℕ → Bool) → RefusesHigh p → (s : Bytes) → any p (runes s) ≡ any p s
unfolding any runes_skip
any-runes_high p high [] = refl
any-runes_high p high (b ∷ s) = elim (dec_lt b 0x80) [
  | yes low ↦ rw (decode_rune_ascii b s low) (ap (λ (t : Bool). p b || t) (any-runes_high p high s))
  | no beyond ↦ rw (high _ (decode_rune_high b s (omega arith)), high b (omega arith))
]

-- Text of ASCII bytes is its own runes.
pub runes_ascii : (s : Bytes) → any (λ b. leb 0x80 b) s ≡ false → runes s ≡ s
unfolding any runes_skip
runes_ascii [] h = refl
runes_ascii (b ∷ s) h =
    let low : b < 0x80 = ground arith in
    rw (decode_rune_ascii b s low) (ap (◌∷◌ b) (runes_ascii s (ground arith)))
