-- ===== src/Signerd.antt =====
-- cmd/signerd/main.go: the configuration, and its checks before the daemon listens. What `os.Stat`
-- says of a path and whether the environment allows the fake backend are arguments.
pub mod Ready
pub mod Loading
pub mod Assembly
pub mod Started
pub mod Healthy
use codesign.Common.{
  ℕ, ◌-◌, ◌*◌, ◌/◌, ◌^◌, Bool, true, false, ◌&&◌, ◌||◌, not, List, [], ◌∷◌, Option, none, some,
  Bytes, codes, equal, leb, is_empty, ◌++◌, if◌then◌else◌,
}
use codesign.Common.Integers.{ℤ, pos, negsuc}
use codesign.Common.Errors.{
  Error, Result, ok, err, wrap, ◌>>=◌, sentinel, unknown_backend, pkcs11_module_required,
  cert_file_required, no_jsign_probe, fake_disabled, bad_max_body, audience_required,
  not_regular_file,
}
use codesign.Text.Fold.{Tables, to_lower}
use codesign.Text.Space.{trim_space}

-- `Config`, with the `[github]` section in its last three fields.
pub record Config : Type 0 where
  pub listen : Bytes
  pub max_body_mib : ℤ
  pub backend : Bytes
  pub command : Bytes
  pub pkcs11_module : Bytes
  pub cert_file : Bytes
  pub key_id : Bytes
  pub alias : Bytes
  pub store_type : Bytes
  pub pin : Bytes
  pub pin_file : Bytes
  pub timestamp_url : Bytes
  pub health_command : List Bytes
  pub digest : Bytes
  pub name : Bytes
  pub url : Bytes
  pub work_dir : Bytes
  pub allow_unauthenticated_loopback : Bool
  pub issuer : Bytes
  pub audience : Bytes
  pub allowed_repositories : List Bytes

pub data Backend : Type 0 where
  osslsigncode jsign fake : Backend

-- The `switch` on the backend's name.
unfoldable pub backend_of : Tables → Bytes → Option Backend
backend_of u name =
    let lower = to_lower u name in
    if is_empty lower || equal lower (codes "osslsigncode")
    then some osslsigncode
    else if equal lower (codes "jsign")
    then some jsign
    else if equal lower (codes "fake")
    then some fake
    else none

-- Of a path: an error, or whether it is a regular file.
abbrev pub Stats : Type 0
Stats = Bytes → Result Bool

abbrev pub regular : Bytes → Bytes → Result Bool → Result (Unit {0})
regular path field (err e) = err (wrap (field ++ (b' ' ∷ path)) e)
regular path field (ok true) = ok tt
regular path field (ok false) = err (wrap (field ++ (b' ' ∷ path)) (sentinel not_regular_file))

abbrev pub require_file : Stats → Bytes → Bytes → Result (Unit {0})
require_file stats path field = regular path field (stats path)

abbrev pub bytes_per_mib : ℕ
bytes_per_mib = 2 ^ 20

abbrev pub max_int64 : ℕ
max_int64 = 2 ^ 63 - 1

abbrev pub is_limit : ℤ → Bool
is_limit (negsuc n) = false
is_limit (pos n) = leb n (max_int64 / bytes_per_mib)

-- A test with its error.
abbrev pub demand : Bool → Error → Result (Unit {0})
demand true e = ok tt
demand false e = err e

unfoldable pub validate_limits : Config → Result (Unit {0})
validate_limits config = demand (is_limit config.max_body_mib) (sentinel bad_max_body) >>= λ _.
    demand (is_empty config.allowed_repositories || not (is_empty (trim_space config.audience)))
      (sentinel audience_required)

unfoldable pub validate_ossl : Stats → Config → Result (Unit {0})
validate_ossl stats config =
    demand (not (is_empty config.pkcs11_module)) (sentinel pkcs11_module_required) >>= λ _.
    require_file stats config.pkcs11_module (codes "pkcs11_module") >>= λ _.
    demand (not (is_empty config.cert_file)) (sentinel cert_file_required) >>= λ _.
    require_file stats config.cert_file (codes "cert_file")

abbrev pub probe_file : Stats → Bytes → Result (Unit {0})
probe_file stats [] = ok tt
probe_file stats (c ∷ path) = require_file stats (c ∷ path) (codes "pkcs11_module")

unfoldable pub validate_jsign : Stats → Config → Result (Unit {0})
validate_jsign stats config =
    demand (not (is_empty config.cert_file)) (sentinel cert_file_required) >>= λ _.
    require_file stats config.cert_file (codes "cert_file") >>= λ _.
    demand (not (is_empty config.pkcs11_module) || not (is_empty config.health_command))
      (sentinel no_jsign_probe)
    >>= λ _. probe_file stats config.pkcs11_module

abbrev pub validate_backend : Stats → Bool → Config → Option Backend → Result (Unit {0})
validate_backend stats allow_fake config none = err (wrap config.backend (sentinel unknown_backend))
validate_backend stats allow_fake config (some osslsigncode) = validate_ossl stats config
validate_backend stats allow_fake config (some jsign) = validate_jsign stats config
validate_backend stats allow_fake config (some fake) = demand allow_fake (sentinel fake_disabled)

unfoldable pub validate_config : Tables → Stats → Bool → Config → Result (Unit {0})
validate_config u stats allow_fake config = validate_limits config >>= λ _.
    validate_backend stats allow_fake config (backend_of u config.backend)
