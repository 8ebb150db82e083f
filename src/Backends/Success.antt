-- ===== src/Backends/Success.antt =====
-- When a backend of backends/osslsigncode.go and backends/jsign.go does sign.
pub mod Steps
use codesign.Common.{◌≡◌, ◌≢◌, false, List, [], ◌∷◌, ◌++◌, some, Bytes, codes, equal, is_empty}
use codesign.Common.Errors.{ok}
use codesign.Common.Store.{Store, content, content-put}
use codesign.Backends.{Runner, Writer, written_out, with_pin_file}
use codesign.Backends.Contract.{Host}
use codesign.Backends.Copying.{Copying}
use codesign.Backends.Jsign.{JsignConfig, jsign_ran}
use codesign.Backends.Jsign.Outcome.{gives_pin as gives_copy_pin}
use codesign.Backends.Osslsigncode.{OsslConfig, ossl_args, ran}
use codesign.Backends.Osslsigncode.Outcome.{gives_pin}
use codesign.Signer.{Request, check}
use codesign.Backends.Success.Steps.{StagingGoes, PinGoes, CopyGoes}

-- Nothing goes wrong at the host with this request on these files, and both configurations have
-- what the backends ask for.
pub record AllGoes (h : Host) (run : Runner) (ossl_config : OsslConfig) (jsign_config : JsignConfig)
    (req : Request) (s : Store) : Type 0 where
  pub passes : check (h.same_file req s) req ≡ ok tt
  pub unsigned : Bytes
  pub there : content req.input_path s ≡ some unsigned
  pub pin_goes : PinGoes (h.pin_file req s)
  pub staging_goes : StagingGoes (h.staging_file req s)
  pub copy_goes : CopyGoes (h.copying req s)
  pub clears : h.clearing req s ≡ ok tt
  pub has_module : ossl_config.pkcs11_module ≢ []
  pub has_chain : ossl_config.cert_file ≢ []
  pub has_cert : jsign_config.cert_file ≢ []
