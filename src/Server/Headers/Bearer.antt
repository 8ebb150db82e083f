-- ===== src/Server/Headers/Bearer.antt =====
-- Which Authorization headers carry a token, and which token.
use codesign.Common.{
  ◌≡◌, ◌≢◌, refl, ◌↔◌, true, inl, inr, [], ◌∷◌, some, map, arith, Bytes, codes, Option-cases,
  Bool-cases,
}
use codesign.Text.Cuts.{Cut, cut_iff}
use codesign.Text.Fold.{Tables, equal_fold}
use codesign.Text.FoldAscii.{FoldsApart, upper, equal_fold_iff}
use codesign.Text.Space.{cut, trim_space}
use codesign.Text.Utf8.{runes_skip, decode_rune}
use codesign.Server.Headers.{trimmed_token, scheme_token, bearer_token}

-- The header is a scheme that reads "bearer" in some ASCII case, a space, and the token, which is
-- not blank.
pub record Carries (header token : Bytes) : Type 0 where
  pub scheme : Bytes
  pub rest : Bytes
  pub split : Cut b' ' header scheme rest
  pub is_bearer : map upper scheme ≡ codes "BEARER"
  pub trimmed : token ≡ trim_space rest
  pub not_blank : token ≢ []

bearer_fold :
    (u : Tables)
    → FoldsApart u
    → (s : Bytes) → (equal_fold u s (codes "Bearer") ≡ true) ↔ (map upper s ≡ codes "BEARER")
unfolding runes_skip decode_rune
bearer_fold u t s = equal_fold_iff u t s (codes "Bearer") (grind arith) refl refl

trimmed_token-some : (s t : Bytes) → trimmed_token s ≡ some t → (t ≡ s) × (t ≢ [])
trimmed_token-some [] t h = cc
trimmed_token-some (c ∷ s) t h = (cc, λ e. cc)

trimmed_token_of : (t : Bytes) → t ≢ [] → trimmed_token t ≡ some t
trimmed_token_of [] h = absurd (h refl)
trimmed_token_of (c ∷ t) h = refl

scheme_token-some :
    (u : Tables) (s r t : Bytes)
    → scheme_token u (some (s, r)) ≡ some t
    → (equal_fold u s (codes "Bearer") ≡ true) × (trimmed_token (trim_space r) ≡ some t)
scheme_token-some u s r t h = elim (Bool-cases (equal_fold u s (codes "Bearer"))) [
  | inl same ↦ (same, rw same at h)
  | inr other ↦ cc (rw other at h)
]

module _ (u : Tables) (folds : FoldsApart u) (header token : Bytes) where
  bearer_token-Carries : bearer_token u header ≡ some token → Carries header token
  unfolding bearer_token
  bearer_token-Carries h = elim (Option-cases (cut b' ' header)) [
    | inl nowhere ↦ cc (rw nowhere at h)
    | inr ((s, r), found) ↦
        let (same, token_is) = scheme_token-some u s r token (rw found at h) in
        let (trimmed, not_blank) = trimmed_token-some (trim_space r) token token_is in
        record {
          scheme = s;
          rest = r;
          split = (cut_iff b' ' header s r).0 found;
          is_bearer = (bearer_fold u folds s).0 same;
          trimmed = trimmed;
          not_blank = not_blank;
        }
  ]

  Carries-bearer_token : Carries header token → bearer_token u header ≡ some token
  unfolding bearer_token
  Carries-bearer_token c =
      rw
        (
          (cut_iff b' ' header c.scheme c.rest).1 c.split,
          (bearer_fold u folds c.scheme).1 c.is_bearer,
          ← c.trimmed,
        )
        (trimmed_token_of token c.not_blank)

  -- `bearerToken` finds a token exactly in the headers that carry one, and finds that one, for
  -- Unicode tables in which a rune beyond ASCII folds to no ASCII letter but K and S.
  pub bearer_token_iff : (bearer_token u header ≡ some token) ↔ Carries header token
  bearer_token_iff = (bearer_token-Carries, Carries-bearer_token)
