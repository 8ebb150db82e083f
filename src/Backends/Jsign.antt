-- ===== src/Backends/Jsign.antt =====
-- backends/jsign.go: jsign signs a copy of the input in place.
pub mod Arguments
pub mod Outcome
use codesign.Common.{List, [], ◌∷◌, ◌++◌, Bytes, codes, is_empty, if◌then◌else◌, Bool}
use codesign.Common.Errors.{Result, ok, err, wrap, sentinel, no_cert_file, ◌>>=◌}
use codesign.Common.Store.{Store}
use codesign.Backends.{
  Runner, fallback, flag, or_default, default_timestamp_url, default_token_health, health_of,
  unless_refused, StagingFile, PinFile, Writer, publish_signed, with_pin_file,
}
use codesign.Backends.Copying.{Copying, copy_file}
use codesign.Signer.{Request, check}

-- `JsignConfig`, but for the runner.
pub record JsignConfig : Type 0 where
  pub command : Bytes
  pub store_type : Bytes
  pub alias : Bytes
  pub cert_file : Bytes
  pub pin : Bytes
  pub timestamp_url : Bytes
  pub digest : Bytes
  pub name : Bytes
  pub url : Bytes
  pub pkcs11_module : Bytes
  pub health_command : List Bytes

-- `NewJsign` of a configuration.
unfoldable pub new_jsign : JsignConfig → JsignConfig
new_jsign config = record config {
  command = fallback config.command (codes "jsign");
  store_type = fallback config.store_type (codes "YUBIKEY");
  timestamp_url = fallback config.timestamp_url default_timestamp_url;
  digest = fallback config.digest (codes "SHA-384");
  health_command = or_default config.health_command (default_token_health config.pkcs11_module);
}

-- jsign reads the PIN from the file behind `file:`.
abbrev pub pass_flag : Bytes → List Bytes
pass_flag [] = []
pass_flag (c ∷ path) = codes "--storepass" ∷ (codes "file:" ++ (c ∷ path)) ∷ []

-- The arguments in front of the file, which stands last.
unfoldable pub jsign_options : JsignConfig → Bytes → Request → List Bytes
jsign_options config pin_path req =
    (codes "--storetype"
      ∷ config.store_type
      ∷ codes "--certfile"
      ∷ config.cert_file
      ∷ codes "--alg"
      ∷ config.digest
      ∷ codes "--tsaurl"
      ∷ config.timestamp_url
      ∷ codes "--tsmode"
      ∷ codes "RFC3161"
      ∷ [])
    ++ (flag (codes "--alias") config.alias
        ++ (pass_flag pin_path
            ++ (flag (codes "--name") (fallback req.name config.name)
                ++ flag (codes "--url") (fallback req.url config.url))))

abbrev pub jsign_ran : Store × Result Bytes → Store × Result (Unit {0})
jsign_ran (s, ok output) = (s, ok tt)
jsign_ran (s, err e) = (s, err (wrap (codes "jsign sign") e))

unfoldable pub jsign_run : Runner → JsignConfig → Request → Bytes → Writer
jsign_run run config req pin_path staging s =
    jsign_ran (run config.command (jsign_options config pin_path req ++ (staging ∷ [])) s)

-- The copy has been made, or not.
abbrev pub jsign_copied :
    Runner
    → JsignConfig
    → PinFile
    → Request
    → Bytes
    → Store × Result (Unit {0})
    → Store × Result (Unit {0})
jsign_copied run config p req staging (s, err e) = (s, err (wrap (codes "jsign sign") e))
jsign_copied run config p req staging (s, ok _) =
    with_pin_file p config.pin (λ pin_path t. jsign_run run config req pin_path staging t) s

unfoldable pub jsign_write : Runner → JsignConfig → PinFile → Copying → Request → Writer
jsign_write run config p c req staging s =
    jsign_copied run config p req staging (copy_file c req.input_path staging s)

abbrev pub jsign_refusal : JsignConfig → Bool → Request → Result (Unit {0})
jsign_refusal config same_file req = check same_file req >>= λ _.
    if is_empty config.cert_file then err (sentinel no_cert_file) else ok tt

unfoldable pub jsign_sign :
    Runner
    → JsignConfig
    → Bool
    → PinFile
    → StagingFile
    → Copying
    → Request
    → Store
    → Store × Result (Unit {0})
jsign_sign run config same_file p f c req s =
    unless_refused (codes "jsign sign") s (jsign_refusal config same_file req)
      (publish_signed f req.output_path (jsign_write run config p c req) s)

-- `Health`.
unfoldable pub jsign_health : Runner → JsignConfig → Store → Store × Result (Unit {0})
jsign_health run config s =
    health_of (codes "jsign health") run config.command config.health_command s
