-- ===== src/Oidc/Jwks.antt =====
-- `loadKeys`, `checkJWKSURI` and `getJSON` of oidc/oidc.go. The HTTP client, `net/url` and
-- `encoding/json` are the parameter `Remote`.
pub mod Origin
use codesign.Common.{
  ℕ, ◌%◌, ◌^◌, Bool, not, ◌||◌, List, [], ◌∷◌, ◌++◌, Option, none, some, Bytes, codes, take, ◌==◌,
  equal, is_empty, if◌then◌else◌,
}
use codesign.Common.Errors.{
  annotate, Error, Result, ok, err, sentinel, fault, other, wrap, bad_discovery, jwks_host,
  unexpected_status, ◌>>=◌,
}
use codesign.Oidc.Base64.{decode_base64, big_endian}
use codesign.Oidc.Keys.{PublicKey, KeySet, insert}
use codesign.Text.Space.{trim_suffix}

pub record Url : Type 0 where
  pub scheme : Bytes
  pub host : Bytes

pub record Response : Type 0 where
  pub status : ℕ
  pub body : Bytes

-- One entry of the key set as the issuer publishes it.
pub record Jwk : Type 0 where
  pub kty : Bytes
  pub kid : Bytes
  pub n : Bytes
  pub e : Bytes

pub record Remote : Type 0 where
  pub parse_url : Bytes → Result Url
  pub new_request : Bytes → Result (Unit {0})
  pub get : Bytes → Result Response
  pub decode_discovery : Bytes → Result Bytes
  pub decode_key_set : Bytes → Result (List Jwk)

-- `fmt.Errorf` around an error, if there is one.
abbrev pub max_meta_bytes : ℕ
max_meta_bytes = 1048576

abbrev pub check_status : Bytes → Response → Result Bytes
check_status url resp =
    if not (resp.status == 200)
    then err (wrap url (sentinel unexpected_status))
    else ok (take max_meta_bytes resp.body)

unfoldable pub get_json {ℓ} : {A : Type ℓ} → Remote → (Bytes → Result A) → Bytes → Result A
get_json remote decode url = do
  _ ← annotate (codes "creating request") (remote.new_request url)
  resp ← annotate url (remote.get url)
  body ← check_status url resp
  annotate url (decode body)

abbrev pub same_origin : Url → Url → Result (Unit {0})
same_origin issuer jwks =
    if not (equal jwks.scheme issuer.scheme) || not (equal jwks.host issuer.host)
    then err (wrap jwks.host (sentinel jwks_host))
    else ok tt

unfoldable pub check_jwks_uri : Remote → Bytes → Bytes → Result (Unit {0})
check_jwks_uri remote issuer jwks = do
  issuer_url ← annotate (codes "parsing issuer") (remote.parse_url issuer)
  jwks_url ← annotate (codes "parsing jwks_uri") (remote.parse_url jwks)
  same_origin issuer_url jwks_url

-- A number in base64; the note names the key.
abbrev pub decoded : Bytes → Option Bytes → Result Bytes
decoded id none = err (wrap id (fault (other (codes "illegal base64 data"))))
decoded id (some b) = ok b

-- An entry that is not an RSA key with an id is skipped.
abbrev pub is_skipped : Jwk → Bool
is_skipped j = not (equal j.kty (codes "RSA")) || is_empty j.kid

abbrev pub public_key : Bytes → Bytes → PublicKey
public_key modulus exponent = record {
  modulus = big_endian 0 modulus;
  exponent = big_endian 0 exponent % 2 ^ 64;
}

-- The body of the loop of `loadKeys`.
unfoldable pub add_key : Jwk → KeySet → Result KeySet
add_key j keys = if is_skipped j then ok keys else do
  modulus ← decoded j.kid (decode_base64 j.n)
  exponent ← decoded j.kid (decode_base64 j.e)
  ok (insert j.kid (public_key modulus exponent) keys)

unfoldable pub add_keys : List Jwk → KeySet → Result KeySet
unfolding add_key
add_keys [] keys = ok keys
add_keys (j ∷ js) keys = do keys' ← add_key j keys; add_keys js keys'

abbrev pub discovery_url : Bytes → Bytes
discovery_url issuer = trim_suffix b'/' issuer ++ codes "/.well-known/openid-configuration"

abbrev pub present : Bytes → Result Bytes
present uri = if is_empty uri then err (sentinel bad_discovery) else ok uri

unfoldable pub load_keys : Remote → Bytes → Result KeySet
load_keys remote issuer = do
  discovered ←
      annotate (codes "issuer discovery")
        (get_json remote remote.decode_discovery (discovery_url issuer))
  uri ← present discovered
  _ ← check_jwks_uri remote issuer uri
  key_set ← annotate (codes "fetching JWKS") (get_json remote remote.decode_key_set uri)
  add_keys key_set []
