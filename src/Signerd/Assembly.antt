-- ===== src/Signerd/Assembly.antt =====
-- `buildSigner`, `newDaemon` and `run` of cmd/signerd/main.go.
use codesign.Common.{
  ℕ, ◌+◌, ◌-◌, ◌*◌, ◌%◌, ◌^◌, Bool, List, [], ◌∷◌, Option, none, some, Bytes, codes, ltb,
  if◌then◌else◌,
}
use codesign.Common.Errors.{
  Result, ok, err, wrap, annotate, sentinel, unknown_backend, fake_disabled, ◌>>=◌,
}
use codesign.Common.Integers.{ℤ, pos, negsuc}
use codesign.Backends.Jsign.{JsignConfig, new_jsign}
use codesign.Backends.Osslsigncode.{OsslConfig, new_osslsigncode}
use codesign.Oidc.Verify.{Config as OidcConfig, new_verifier}
use codesign.Server.Construction.{Settings, new_server, Ending, serve}
use codesign.Signer.Fake.{Fake}
use codesign.Signerd.{
  Config, Backend, osslsigncode, jsign, fake, backend_of, bytes_per_mib, Stats, validate_config,
}
use codesign.Signerd.Loading.{System, load_config}
use codesign.Text.Fold.{Tables}

-- The signer that runs.
pub data Chosen : Type 0 where
  with_osslsigncode : OsslConfig → Chosen
  with_jsign : JsignConfig → Chosen
  with_fake : Fake → Chosen

abbrev pub ossl_config : Config → OsslConfig
ossl_config config = record {
  command = config.command;
  pkcs11_module = config.pkcs11_module;
  cert_file = config.cert_file;
  key_id = config.key_id;
  pin = config.pin;
  timestamp_url = config.timestamp_url;
  digest = config.digest;
  name = config.name;
  url = config.url;
  health_command = config.health_command;
}

abbrev pub jsign_config : Config → JsignConfig
jsign_config config = record {
  command = config.command;
  store_type = config.store_type;
  alias = config.alias;
  cert_file = config.cert_file;
  pin = config.pin;
  timestamp_url = config.timestamp_url;
  digest = config.digest;
  name = config.name;
  url = config.url;
  pkcs11_module = config.pkcs11_module;
  health_command = config.health_command;
}

abbrev pub new_fake : Fake
new_fake = record { sign_err = none; health_err = none; requests = [] }

abbrev pub chosen : Bool → Config → Option Backend → Result Chosen
chosen allow_fake config none = err (wrap config.backend (sentinel unknown_backend))
chosen allow_fake config (some osslsigncode) =
    ok (with_osslsigncode (new_osslsigncode (ossl_config config)))
chosen allow_fake config (some jsign) = ok (with_jsign (new_jsign (jsign_config config)))
chosen allow_fake config (some fake) =
    if allow_fake then ok (with_fake new_fake) else err (sentinel fake_disabled)

unfoldable pub build_signer : Tables → Bool → Config → Result Chosen
build_signer u allow_fake config = chosen allow_fake config (backend_of u config.backend)

-- An int64 of its 64 bits.
abbrev pub signed64 : ℕ → ℤ
signed64 bits = if ltb bits (2 ^ 63) then pos bits else negsuc (2 ^ 64 - 1 - bits)

-- `config.MaxBodyMiB * bytesPerMiB`, with the overflow of an int64.
unfoldable pub body_bytes : ℤ → ℤ
body_bytes (pos n) = signed64 ((n * bytes_per_mib) % 2 ^ 64)
body_bytes (negsuc n) = signed64 ((2 ^ 64 - ((n + 1) * bytes_per_mib) % 2 ^ 64) % 2 ^ 64)

abbrev pub github : Config → OidcConfig
github config = record {
  issuer = config.issuer;
  audience = config.audience;
  allowed_repositories = config.allowed_repositories;
}

-- There is a verifier where some repository may sign.
abbrev pub verifier_for : List Bytes → OidcConfig → Option OidcConfig
verifier_for [] config = none
verifier_for (repository ∷ repositories) config = some (new_verifier config)

abbrev pub settings_for : Config → Chosen → Settings Chosen OidcConfig
settings_for config backend = record {
  addr = config.listen;
  max_body = body_bytes config.max_body_mib;
  signer = backend;
  verifier = verifier_for config.allowed_repositories (github config);
  allow_unauthenticated_loopback = config.allow_unauthenticated_loopback;
  work_dir = config.work_dir;
  health_timeout = pos 0;
  health_cache_ttl = pos 0;
}

unfoldable pub new_daemon : Tables → Bool → Bytes → Config → Result (Settings Chosen OidcConfig)
new_daemon u allow_fake temp_dir config = build_signer u allow_fake config >>= λ backend.
    ok (new_server temp_dir (settings_for config backend))

-- A daemon that is ready to serve: the configuration is loaded and passes its checks.
unfoldable pub start :
    Tables → Stats → Bool → Bytes → System → Bytes → Result (Settings Chosen OidcConfig)
start u stats allow_fake temp_dir sys path = load_config sys path >>= λ config.
    validate_config u stats allow_fake config >>= λ _. new_daemon u allow_fake temp_dir config

-- `run`, behind the flags.
unfoldable pub run :
    Tables
    → Stats
    → Bool
    → Bytes
    → System
    → Bytes
    → (Settings Chosen OidcConfig → Ending)
    → Result (Unit {0})
run u stats allow_fake temp_dir sys path ends =
    start u stats allow_fake temp_dir sys path >>= λ daemon.
    annotate (codes "running daemon") (serve (ends daemon))
