-- ===== src/Oidc/Verify.antt =====
-- `Verify` of oidc/oidc.go. The JWT library is the parameter `ParseWithClaims`.
use codesign.Common.{
  ℕ, Bool, true, not, List, [], ◌∷◌, Option, none, some, Bytes, codes, any, is_empty, if◌then◌else◌,
}
use codesign.Common.Errors.{
  Result, ok, err, sentinel, wrap, empty_allowlist, no_audience, no_repository, no_key_id,
  repo_not_allowed,
}
use codesign.Oidc.Keys.{PublicKey, KeySet, Cache, Readings, Others, key}
use codesign.Text.Fold.{Tables, equal_fold}

pub record Config : Type 0 where
  pub issuer : Bytes
  pub audience : Bytes
  pub allowed_repositories : List Bytes

abbrev pub default_issuer : Bytes
default_issuer = codes "https://token.actions.githubusercontent.com"

abbrev pub issuer_or : Bytes → Bytes
issuer_or [] = default_issuer
issuer_or (c ∷ issuer) = c ∷ issuer

-- `New`, but for the HTTP client.
unfoldable pub new_verifier : Config → Config
new_verifier config = record config { issuer = issuer_or config.issuer }

pub record Claims : Type 0 where
  pub issuer : Bytes
  pub audience : List Bytes
  pub expires_at : Option ℕ
  pub not_before : Option ℕ
  pub issued_at : Option ℕ
  pub repository : Bytes
  pub repository_owner : Bytes
  pub ref : Bytes
  pub workflow : Bytes
  pub job_workflow_ref : Bytes
  pub event_name : Bytes
  pub actor : Bytes
  pub run_id : Bytes

-- The options that `Verify` passes: the methods, the issuer, the audience, and that a token must
-- expire.
pub record Options : Type 0 where
  pub valid_methods : List Bytes
  pub issuer : Bytes
  pub audience : Bytes
  pub expiration_required : Bool

-- The header of a parsed, unverified token; `kid` is `none` where it is absent or no string.
pub record Header : Type 0 where
  pub alg : Bytes
  pub kid : Option Bytes

-- The key function that is handed to the library, which may move the key cache.
abbrev pub KeyFunc : Type 0
KeyFunc = Header → Cache → Cache × Result PublicKey

-- `jwt.ParseWithClaims`.
abbrev pub ParseWithClaims : Type 0
ParseWithClaims = Options → Bytes → KeyFunc → Cache → Cache × Result Claims

-- What one call of `key` meets: the other calls, the clock, and the answer of the issuer.
pub record Weather : Type 0 where
  pub others : Others
  pub readings : Readings
  pub loaded : Result KeySet

abbrev pub key_id : Option Bytes → Bytes
key_id none = []
key_id (some kid) = kid

unfoldable pub key_func : Weather → KeyFunc
key_func w header c =
    let kid = key_id header.kid in
    if is_empty kid then (c, err (sentinel no_key_id)) else key w.others w.readings w.loaded kid c

abbrev pub rs256 : Bytes
rs256 = codes "RS256"

abbrev pub options_of : Config → Options
options_of config = record {
  valid_methods = rs256 ∷ [];
  issuer = config.issuer;
  audience = config.audience;
  expiration_required = true;
}

unfoldable pub is_allowed : Tables → List Bytes → Bytes → Bool
is_allowed u allowed repository = any (λ repo. equal_fold u repo repository) allowed

-- What is left when the library has accepted the token.
unfoldable pub admit : Tables → Config → Claims → Result Claims
admit u config claims =
    if is_empty claims.repository
    then err (sentinel no_repository)
    else if not (is_allowed u config.allowed_repositories claims.repository)
    then err (wrap claims.repository (sentinel repo_not_allowed))
    else ok claims

abbrev pub admitted : Tables → Config → Cache × Result Claims → Cache × Result Claims
admitted u config (c, err e) = (c, err (wrap (codes "verifying token") e))
admitted u config (c, ok claims) = (c, admit u config claims)

unfoldable pub verify :
    Tables → ParseWithClaims → Config → Weather → Bytes → Cache → Cache × Result Claims
verify u parse config w token c =
    if is_empty config.allowed_repositories
    then (c, err (sentinel empty_allowlist))
    else if is_empty config.audience
    then (c, err (sentinel no_audience))
    else admitted u config (parse (options_of config) token (key_func w) c)
