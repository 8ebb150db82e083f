-- ===== src/Oidc/Acceptance.antt =====
-- Which tokens `Verify` does accept.
use mathlib.Core.List.{Memᴰ}
use codesign.Common.{
  ℕ, ◌≡◌, ◌≢◌, ◌<◌, ◌≤◌, refl, sym, ap, ◌∙◌, inl, inr, true, false, List, [], ◌∷◌, some, Bytes,
  is_empty, any, Bool-cases,
}
use codesign.Common.Options.{some_injective}
use codesign.Common.Errors.{ok}
use codesign.Oidc.Admission.{Accepted, Listed, first, later}
use codesign.Oidc.Keys.{PublicKey, Cache, key}
use codesign.Oidc.Verify.{
  Config, Claims, Options, Header, KeyFunc, ParseWithClaims, Weather, key_id, key_func, rs256,
  options_of, is_allowed, admit, verify,
}
use codesign.Text.Fold.{Tables, equal_fold}

-- The other half of the JWT library's promise: a token that passes all that is asked of it under
-- its own header is accepted.
pub record IsComplete (Signed : Bytes → PublicKey → Claims → Type 0) (now : ℕ)
    (header_of : Bytes → Header) (parse : ParseWithClaims) : Type 0 where
  pub accepts :
      (o : Options) (token : Bytes) (f : KeyFunc) (c after : Cache) (claims : Claims)
      (a : Accepted Signed now o token f c after claims)
      → a.header ≡ header_of token
      → parse o token f c ≡ (after, ok claims)

Listed-is_allowed :
    (u : Tables) (rs : List Bytes) (r : Bytes) → Listed u r rs → is_allowed u rs r ≡ true
unfolding is_allowed any
Listed-is_allowed u [] r listed = elim listed [ ]
Listed-is_allowed u (x ∷ rs) r (first same) = rw same refl
Listed-is_allowed u (x ∷ rs) r (later listed) = elim (Bool-cases (equal_fold u x r)) [
  | inl same ↦ rw same refl
  | inr other ↦ rw other (Listed-is_allowed u rs r listed)
]

not_empty {ℓ} : {A : Type ℓ} (s : List A) → s ≢ [] → is_empty s ≡ false
not_empty [] named = absurd (named refl)
not_empty (x ∷ s) named = refl

Listed-ne-nil : (u : Tables) (rs : List Bytes) (r : Bytes) → Listed u r rs → is_empty rs ≡ false
Listed-ne-nil u [] r listed = elim listed [ ]
Listed-ne-nil u (x ∷ rs) r listed = refl

admit-Listed :
    (u : Tables) (config : Config) (claims : Claims)
    → claims.repository ≢ []
    → Listed u claims.repository config.allowed_repositories
    → admit u config claims ≡ ok claims
unfolding admit
admit-Listed u config claims named listed =
    rw
      (
        not_empty claims.repository named,
        Listed-is_allowed u config.allowed_repositories claims.repository listed,
      )
      refl

module _ (u : Tables) (Signed : Bytes → PublicKey → Claims → Type 0) (now : ℕ)
    (header_of : Bytes → Header) (config : Config) (w : Weather) (token : Bytes) (c : Cache) where
  -- A token that a workflow of an allowed repository should get in with.
  pub record IsGood (claims : Claims) : Type 0 where
    pub is_rs256 : (header_of token).alg ≡ rs256
    pub kid_ne_nil : key_id (header_of token).kid ≢ []
    pub signing_key : PublicKey
    pub key_there :
        (key w.others w.readings w.loaded (key_id (header_of token).kid) c).1 ≡ ok signing_key
    pub signed : Signed token signing_key claims
    pub issuer_matches : claims.issuer ≡ config.issuer
    pub audience_ne_nil : config.audience ≢ []
    pub audience_matches : Memᴰ config.audience claims.audience
    pub expires : ℕ
    pub expires_is : claims.expires_at ≡ some expires
    pub unexpired : now < expires
    pub started : (begins : ℕ) → claims.not_before ≡ some begins → begins ≤ now
    pub repository_ne_nil : claims.repository ≢ []
    pub listed : Listed u claims.repository config.allowed_repositories

  abbrev cache_behind : Cache
  cache_behind = (key w.others w.readings w.loaded (key_id (header_of token).kid) c).0

  key_func-IsGood :
      (claims : Claims) (good : IsGood claims)
      → key_func w (header_of token) c ≡ (cache_behind, ok good.signing_key)
  unfolding key_func
  key_func-IsGood claims good =
      rw (not_empty (key_id (header_of token).kid) good.kid_ne_nil)
        (ap (λ x. (cache_behind, x)) good.key_there)

  parse-accepts :
      (parse : ParseWithClaims) (claims : Claims)
      → IsComplete Signed now header_of parse
      → IsGood claims
      → parse (options_of config) token (key_func w) c ≡ (cache_behind, ok claims)
  parse-accepts parse claims complete good =
      complete.accepts (options_of config) token (key_func w) c cache_behind claims
        (record {
          header = header_of token;
          signing_key = good.signing_key;
          valid_method = λ asked. Memᴰ.head good.is_rs256;
          key_given = key_func-IsGood claims good;
          signed = good.signed;
          issuer_matches = λ asked. good.issuer_matches;
          audience_matches = λ asked. good.audience_matches;
          expires = λ asked. (good.expires, good.expires_is);
          unexpired =
              λ t expires. rw (some_injective (sym good.expires_is ∙ expires)) at good.unexpired;
          started = good.started;
        })
        refl

  -- With a JWT library that accepts what passes its documented checks, `Verify` accepts every token
  -- with RS256 and a key id in its header for which `key` has the key that it is signed with, of the
  -- configured issuer and the configured, nonempty audience, which does expire but has not expired,
  -- is valid already, if it says from when it is, and is of a repository that is on the allowlist
  -- but for case.
  pub verify_accepts :
      (parse : ParseWithClaims) (claims : Claims)
      → IsComplete Signed now header_of parse
      → IsGood claims
      → (verify u parse config w token c).1 ≡ ok claims
  unfolding verify
  verify_accepts parse claims complete good =
      rw
        (
          Listed-ne-nil u config.allowed_repositories claims.repository good.listed,
          not_empty config.audience good.audience_ne_nil,
          parse-accepts parse claims complete good,
        )
        (admit-Listed u config claims good.repository_ne_nil good.listed)
