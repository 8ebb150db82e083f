-- ===== src/Tests/Backends.antt =====
-- Both backends at a host that picks its file names while they are new.
use codesign.Common.{
  ◌≡◌, refl, ap, ◌∙◌, sym, false, Option, none, some, [], Bytes, codes, equal, Bool, true,
}
use codesign.Common.Errors.{Result, ok, err, fault, not_exist}
use codesign.Common.Store.{Store, content}
use codesign.Backends.Contract.{
  Host, Refines, osslsigncode, ossl_signer, jsign_signer, signers-Kept,
}
use codesign.Backends.Copying.{Copying}
use codesign.Backends.Jsign.{JsignConfig, jsign_sign}
use codesign.Backends.Jsign.Outcome.{JsignSigned, jsign_sign-JsignSigned}
use codesign.Signer.{Request}
use codesign.Signer.Contract.{Backend}
use codesign.Tests.Tools.{
  tool, request, work_files, pin_file, staging_file, token, tool-SignsInPlace, tool-WritesOut,
  files-NewNames, Makes, tool-MakesOut, tool-MakesInPlace,
}

abbrev pub smooth_copy : Copying
smooth_copy = record { opened = ok tt; created = ok tt; copied = none; closed = ok tt }

abbrev yubikey : JsignConfig
yubikey = record {
  command = codes "jsign";
  store_type = codes "YUBIKEY";
  alias = [];
  cert_file = codes "chain.pem";
  pin = codes "123456";
  timestamp_url = codes "http://ts";
  digest = codes "SHA-384";
  name = [];
  url = [];
  pkcs11_module = [];
  health_command = [];
}

input_there : content (codes "in") work_files ≡ some (codes "unsigned")
unfolding content equal
input_there = refl

jsign_sign-JsignSigned_example :
    JsignSigned tool yubikey pin_file staging_file request
      (codes "unsigned")
      work_files
      (jsign_sign tool yubikey false pin_file staging_file smooth_copy request work_files)
jsign_sign-JsignSigned_example =
    jsign_sign-JsignSigned tool yubikey false pin_file staging_file smooth_copy request work_files
      (codes "unsigned") tool-SignsInPlace input_there files-NewNames

-- A name, where no file has it and the output has another one.
abbrev pub unless_there : Bytes → Option Bytes → Bool → Result Bytes
unless_there name none false = ok name
unless_there name _ _ = err (fault not_exist)

abbrev pub named_at : Bytes → Request → Store → Result Bytes
named_at name req s = unless_there name (content name s) (equal req.output_path name)

pub named_new :
    (name : Bytes) (x : Option Bytes) (b : Bool) {path : Bytes}
    → unless_there name x b ≡ ok path
    → (name ≡ path) × (x ≡ none) × (b ≡ false)
named_new name none false h = (cc, refl, refl)
named_new name none true h = cc
named_new name (some y) b h = cc

abbrev pub pin_name : Bytes
pin_name = codes "codesign-pin-1"

abbrev pub staging_name : Bytes
staging_name = codes ".signing-1"

pub named_at_new :
    (name : Bytes) (req : Request) (s : Store) (path : Bytes)
    → named_at name req s ≡ ok path
    → (content path s ≡ none) × (equal req.output_path path ≡ false)
named_at_new name req s path h =
    let (same, missing, other) = named_new name (content name s) (equal req.output_path name) h in
    (ap (λ x. content x s) (sym same) ∙ missing, ap (equal req.output_path) (sym same) ∙ other)

pub apart_names : {pin path : Bytes} → pin_name ≡ pin → staging_name ≡ path → equal pin path ≡ false
unfolding equal
apart_names {path = path} is_pin is_path =
    ap (λ x. equal x path) (sym is_pin) ∙ ap (equal pin_name) (sym is_path)

pub missing : ¬ (pin_name ≡ [])
missing h = cc

abbrev pub host : Host
host = record {
  same_file = λ req s. false;
  pin_file = λ req s. record {
    name = named_at pin_name req s;
    written = none;
    closed = ok tt;
    removed = ok tt;
  };
  staging_file = λ req s. record {
    name = named_at staging_name req s;
    closed = ok tt;
    renamed = ok tt;
    removed = ok tt;
  };
  clearing = λ req s. ok tt;
  copying = λ req s. smooth_copy;
  new_names = λ req s. record {
    pin_named = λ path named empty. missing ((named_new pin_name _ _ named).0 ∙ empty);
    pin_new = λ path named. (named_at_new pin_name req s path named).0;
    pin_apart = λ path named. (named_at_new pin_name req s path named).1;
    staging_new = λ path named. (named_at_new staging_name req s path named).0;
    apart = λ pin path is_pin is_path.
        apart_names (named_new pin_name _ _ is_pin).0 (named_new staging_name _ _ is_path).0;
  };
}

signers-Kept_example :
    Refines host tool Makes (ossl_signer host tool token)
    × Refines host tool Makes (jsign_signer host tool yubikey)
signers-Kept_example =
    signers-Kept host tool Makes token yubikey tool-SignsInPlace tool-MakesOut tool-MakesInPlace

abbrev pub token_backend : Backend
token_backend =
    osslsigncode host tool Makes tool-WritesOut tool-MakesOut (λ req s. (refl, refl)) token
