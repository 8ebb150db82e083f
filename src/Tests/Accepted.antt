-- ===== src/Tests/Accepted.antt =====
-- A token of an allowed repository, with a JWT library that reads one header and one key.
use mathlib.Core.List.{Memᴰ}
use codesign.Common.{
  ◌≡◌, refl, sym, ap, ◌∙◌, some, [], arith, Bytes, codes, equal, ◌==◌, if◌then◌else◌,
}
use codesign.Common.Options.{some_injective}
use codesign.Common.Errors.{Result, ok, err, fault, other}
use codesign.Oidc.Acceptance.{IsComplete, IsGood, verify_accepts}
use codesign.Oidc.Admission.{first}
use codesign.Oidc.Keys.{PublicKey, Cache, lookup, cache_fresh, commit, refresh, key}
use codesign.Oidc.Verify.{Claims, Header, ParseWithClaims, verify, rs256}
use codesign.Text.Fold.{equal_fold}
use codesign.Text.Utf8.{runes_skip, decode_rune}
use codesign.Tests.Tables.{plain_tables}
use codesign.Tests.Tokens.{the_key, config, weather, old_cache, options, claims_of}

abbrev one_header : Bytes → Header
one_header token = record { alg = rs256; kid = some (codes "k1") }

abbrev workflow_claims : Claims
workflow_claims = claims_of options

-- The signature is good for a key of this modulus, and the token says these claims.
abbrev SignedBy : Bytes → PublicKey → Claims → Type 0
SignedBy token k claims = (k.modulus ≡ 77) × (claims ≡ workflow_claims)

abbrev checked : Cache × Result PublicKey → Cache × Result Claims
checked (c, err e) = (c, err e)
checked (c, ok k) =
    (c, if k.modulus == 77 then ok workflow_claims else err (fault (other (codes "bad signature"))))

abbrev strict_parse : ParseWithClaims
strict_parse o token f c = checked (f (one_header token) c)

checked_good :
    (p : Cache × Result PublicKey) (after : Cache) (k : PublicKey) (claims : Claims)
    → p ≡ (after, ok k)
    → SignedBy [] k claims
    → checked p ≡ (after, ok claims)
checked_good p after k claims given (good, said) = ap checked given ∙ rw (good, said) refl

strict_parse-IsComplete : IsComplete SignedBy 5 one_header strict_parse
strict_parse-IsComplete = record {
  accepts = λ o token f c after claims a same.
      checked_good (f (one_header token) c) after a.signing_key claims
        (ap (λ h. f h c) (sym same) ∙ a.key_given) a.signed;
}

token-IsGood :
    IsGood plain_tables SignedBy 5 one_header config weather (codes "t") old_cache workflow_claims
unfolding key cache_fresh refresh commit lookup equal equal_fold runes_skip decode_rune
token-IsGood = record {
  is_rs256 = refl;
  kid_ne_nil = λ k. cc;
  signing_key = the_key;
  key_there = refl;
  signed = (refl, refl);
  issuer_matches = refl;
  audience_ne_nil = λ k. cc;
  audience_matches = Memᴰ.head refl;
  expires = 10;
  expires_is = refl;
  unexpired = omega arith;
  started = λ t begins. omega (arith, some_injective begins);
  repository_ne_nil = λ k. cc;
  listed = first refl;
}

verify_accepts_example :
    (verify plain_tables strict_parse config weather (codes "t") old_cache).1 ≡ ok workflow_claims
verify_accepts_example =
    verify_accepts plain_tables SignedBy 5 one_header config weather (codes "t") old_cache
      strict_parse workflow_claims strict_parse-IsComplete token-IsGood
