-- ===== src/Tests/Tools.antt =====
-- The backends, with a tool that writes a fixed file behind its last option.
use codesign.Common.{
  equal_self, sym, ◌≡◌, ◌↔◌, refl, ap, ◌∙◌, false, none, some, List, [], ◌∷◌, ◌++◌, Bytes, codes,
  equal,
}
use codesign.Backends.{Runner, StagingFile, PinFile, publish_signed, with_pin_file, run_health}
use codesign.Backends.Listing.{Shown, run_health_iff}
use codesign.Backends.Jsign.Outcome.{SignsInPlace}
use codesign.Backends.Osslsigncode.{OsslConfig, ossl_options, ossl_write, ossl_sign}
use codesign.Backends.Osslsigncode.Outcome.{WritesOut, OsslSigned, ossl_sign-Signed}
use codesign.Backends.Pin.{NewNames}
use codesign.Backends.Contract.{MakesOut, MakesInPlace}
use codesign.Backends.Success.Steps.{SignsOut, SignsCopy}
use codesign.Common.Options.{some_injective}
use codesign.Common.Errors.{ok_injective, ok}
use codesign.Common.Store.{Store, content, put, remove, rename, content-put}
use codesign.Signer.{Request, check}

unfoldable pub last_or : Bytes → List Bytes → Bytes
last_or path [] = path
last_or path (arg ∷ args) = last_or arg args

last_or-append :
    (first : Bytes) (options : List Bytes) (flag path : Bytes)
    → last_or first (options ++ (flag ∷ path ∷ [])) ≡ path
unfolding last_or
last_or-append first [] flag path = refl
last_or-append first (arg ∷ options) flag path = last_or-append arg options flag path

abbrev pub tool : Runner
tool command args s = (put (last_or [] args) (codes "signed") s, ok (codes "Certificate Object"))

put-elsewhere :
    (path target q : Bytes) (s : Store)
    → target ≡ path
    → equal path q ≡ false
    → content q (put target (codes "signed") s) ≡ content q s
put-elsewhere path target q s is_path other =
    ap (λ x. content q (put x (codes "signed") s)) is_path
    ∙ content-put path q (codes "signed") s
    ∙ rw other refl

pub tool-WritesOut : WritesOut tool
tool-WritesOut command options path s q other =
    put-elsewhere path _ q s (last_or-append [] options (codes "-out") path) other

last-append :
    (first : Bytes) (options : List Bytes) (path : Bytes)
    → last_or first (options ++ (path ∷ [])) ≡ path
unfolding last_or
last-append first [] path = refl
last-append first (arg ∷ options) path = last-append arg options path

pub tool-SignsInPlace : SignsInPlace tool
tool-SignsInPlace command options path s q other =
    put-elsewhere path _ q s (last-append [] options path) other

abbrev pub staging_file : StagingFile
staging_file = record {
  name = ok (codes "out.signing-1");
  closed = ok tt;
  renamed = ok tt;
  removed = ok tt;
}

abbrev pub pin_file : PinFile
pin_file = record {
  name = ok (codes "codesign-pin-1");
  written = none;
  closed = ok tt;
  removed = ok tt;
}

abbrev pub request : Request
request = record {
  input_path = codes "in";
  output_path = codes "out";
  name = codes "App";
  url = [];
}

abbrev pub work_files : Store
work_files = (codes "in", codes "unsigned") ∷ []

put-there :
    (path target : Bytes) (s : Store)
    → target ≡ path
    → content path (put target (codes "signed") s) ≡ some (codes "signed")
put-there path target s is_path =
    ap (λ x. content path (put x (codes "signed") s)) is_path
    ∙ content-put path path (codes "signed") s
    ∙ rw (equal_self path) refl

pub tool-SignsOut : SignsOut tool (codes "123456")
tool-SignsOut command input path u options s ask tell pin there new = record {
  output = codes "Certificate Object";
  succeeds = refl;
  signed = codes "signed";
  left = put-there path _ s (last_or-append [] options (codes "-out") path);
}

pub tool-SignsCopy : SignsCopy tool (codes "123456")
tool-SignsCopy command options path b s pin is_there = record {
  output = codes "Certificate Object";
  succeeds = refl;
  signed = codes "signed";
  left = put-there path _ s (last-append [] options path);
}

missing : ¬ (codes "codesign-pin-1" ≡ [])
missing h = cc

pub files-NewNames : NewNames pin_file staging_file (codes "out") work_files
unfolding content equal
files-NewNames = record {
  pin_named = λ path named empty. missing (ok_injective named ∙ empty);
  pin_new = λ path named. ap (λ x. content x work_files) (sym (ok_injective named));
  pin_apart = λ path named. ap (equal (codes "out")) (sym (ok_injective named));
  staging_new = λ path named. ap (λ x. content x work_files) (sym (ok_injective named));
  apart = λ pin path is_pin is_path.
      ap (λ x. equal x path) (sym (ok_injective is_pin))
      ∙ ap (equal (codes "codesign-pin-1")) (sym (ok_injective is_path));
}

-- What the tool makes of any file.
abbrev pub Makes : Bytes → Bytes → Type 0
Makes unsigned b = b ≡ codes "signed"

left_signed :
    (path target b : Bytes) (s : Store)
    → target ≡ path
    → content path (put target (codes "signed") s) ≡ some b
    → b ≡ codes "signed"
left_signed path target b s is_path left =
    some_injective (sym left ∙ put-there path target s is_path)

pub tool-MakesOut : MakesOut Makes tool
tool-MakesOut command path input u b output options s ask tell there ran left =
    left_signed path _ b s (last_or-append [] options (codes "-out") path) left

pub tool-MakesInPlace : MakesInPlace Makes tool
tool-MakesInPlace command path u b output options s there ran left =
    left_signed path _ b s (last-append [] options path) left

abbrev pub token : OsslConfig
token = record {
  command = codes "osslsigncode";
  pkcs11_module = codes "libykcs11.so";
  cert_file = codes "chain.pem";
  key_id = codes "pkcs11:id";
  pin = codes "123456";
  timestamp_url = codes "http://ts";
  digest = codes "sha384";
  name = [];
  url = [];
  health_command = [];
}

ossl_sign-Signed_example :
    OsslSigned tool token pin_file staging_file request work_files
      (ossl_sign tool (ok tt) token false pin_file staging_file request work_files)
ossl_sign-Signed_example =
    ossl_sign-Signed tool (ok tt) token false pin_file staging_file request work_files
      tool-WritesOut files-NewNames

output_is_signed :
    content
      (codes "out")
      (ossl_sign tool (ok tt) token false pin_file staging_file request work_files).0
    ≡ some (codes "signed")
unfolding ossl_sign check ossl_write ossl_options publish_signed with_pin_file content put remove
    rename equal last_or
output_is_signed = refl

run_health_iff_example : ((run_health tool (codes "tool" ∷ []) work_files).1 ≡ ok tt) ↔ (
    (output : Bytes) × ((tool (codes "tool") [] work_files).1 ≡ ok output)
    × Shown (codes "tool" ∷ []) output)
run_health_iff_example = run_health_iff tool (codes "tool") [] work_files
