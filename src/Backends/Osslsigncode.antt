-- ===== src/Backends/Osslsigncode.antt =====
-- backends/osslsigncode.go.
pub mod Arguments
pub mod Outcome
use codesign.Common.{
  Bool, true, false, List, [], ◌∷◌, ◌++◌, Bytes, codes, equal, if◌then◌else◌, is_empty,
}
use codesign.Common.Errors.{
  Error, Result, ok, err, wrap, sentinel, no_pkcs11_module, no_cert_file, ◌>>=◌,
}
use codesign.Common.Store.{Store, remove}
use codesign.Backends.{
  Runner, fallback, flag, default_token_health, default_timestamp_url, or_default, health_of,
  unless_refused, StagingFile, PinFile, Writer, publish_signed, with_pin_file,
}
use codesign.Signer.{Request, check}

-- `OSSLConfig`, but for the runner.
pub record OsslConfig : Type 0 where
  pub command : Bytes
  pub pkcs11_module : Bytes
  pub cert_file : Bytes
  pub key_id : Bytes
  pub pin : Bytes
  pub timestamp_url : Bytes
  pub digest : Bytes
  pub name : Bytes
  pub url : Bytes
  pub health_command : List Bytes

abbrev pub default_key_id : Bytes
default_key_id = codes "pkcs11:id=%01"

-- `NewOSSLSigncode` of a configuration.
unfoldable pub new_osslsigncode : OsslConfig → OsslConfig
new_osslsigncode config = record config {
  command = fallback config.command (codes "osslsigncode");
  timestamp_url = fallback config.timestamp_url default_timestamp_url;
  digest = fallback config.digest (codes "sha384");
  key_id = fallback config.key_id default_key_id;
  health_command = or_default config.health_command (default_token_health config.pkcs11_module);
}

-- The arguments in front of `-out`.
unfoldable pub ossl_options : OsslConfig → Bytes → Request → List Bytes
ossl_options config pin_path req =
    (codes "sign"
      ∷ codes "-pkcs11module"
      ∷ config.pkcs11_module
      ∷ codes "-certs"
      ∷ config.cert_file
      ∷ codes "-key"
      ∷ config.key_id
      ∷ codes "-h"
      ∷ config.digest
      ∷ codes "-ts"
      ∷ config.timestamp_url
      ∷ [])
    ++ (flag (codes "-readpass") pin_path
        ++ (flag (codes "-n") (fallback req.name config.name)
            ++ (flag (codes "-i") (fallback req.url config.url)
                ++ (codes "-in" ∷ req.input_path ∷ []))))

abbrev pub ossl_args : OsslConfig → Bytes → Request → Bytes → List Bytes
ossl_args config pin_path req staging =
    ossl_options config pin_path req ++ (codes "-out" ∷ staging ∷ [])

abbrev pub ran : Store × Result Bytes → Store × Result (Unit {0})
ran (s, ok output) = (s, ok tt)
ran (s, err e) = (s, err (wrap (codes "osslsigncode sign") e))

-- The staging file is cleared, or that fails; then the tool runs.
abbrev pub ossl_cleared :
    Runner
    → OsslConfig
    → Request
    → Bytes
    → Bytes
    → Store
    → Result (Unit {0})
    → Store × Result (Unit {0})
ossl_cleared run config req pin_path staging s (err e) =
    (s, err (wrap (codes "osslsigncode sign: clearing staging file") e))
ossl_cleared run config req pin_path staging s (ok _) =
    ran (run config.command (ossl_args config pin_path req staging) (remove staging s))

unfoldable pub ossl_write : Runner → Result (Unit {0}) → OsslConfig → Request → Bytes → Writer
ossl_write run clearing config req pin_path staging s =
    ossl_cleared run config req pin_path staging s clearing

abbrev pub ossl_files :
    Runner
    → Result (Unit {0})
    → OsslConfig
    → PinFile
    → StagingFile
    → Request
    → Store
    → Store × Result (Unit {0})
ossl_files run clearing config p f req s =
    with_pin_file p config.pin
      (λ pin_path t.
        publish_signed f req.output_path (ossl_write run clearing config req pin_path) t)
      s

abbrev pub ossl_refusal : OsslConfig → Bool → Request → Result (Unit {0})
ossl_refusal config same_file req = check same_file req >>= λ _.
    if is_empty config.pkcs11_module
    then err (sentinel no_pkcs11_module)
    else if is_empty config.cert_file
    then err (sentinel no_cert_file)
    else ok tt

unfoldable pub ossl_sign :
    Runner
    → Result (Unit {0})
    → OsslConfig
    → Bool
    → PinFile
    → StagingFile
    → Request
    → Store
    → Store × Result (Unit {0})
ossl_sign run clearing config same_file p f req s =
    unless_refused (codes "osslsigncode sign") s (ossl_refusal config same_file req)
      (ossl_files run clearing config p f req s)

-- `Health`: the tool answers, then the probe.
unfoldable pub ossl_health : Runner → OsslConfig → Store → Store × Result (Unit {0})
ossl_health run config s =
    health_of (codes "osslsigncode health") run config.command config.health_command s
