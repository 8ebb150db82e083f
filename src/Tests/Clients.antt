-- ===== src/Tests/Clients.antt =====
-- The client, against a service that fails once.
use codesign.Common.{
  ℕ, zero, suc, ◌≡◌, ◌⊎◌, ◌↔◌, ◌⊎◌, refl, false, ◌&&◌, none, some, [], ◌∷◌, Bytes, codes, any,
  equal, if◌then◌else◌,
}
use codesign.Client.{
  Config, SignOptions, Exchange, unsent, replied, Attempt, validate_headers, sign_post, sign_once,
  judge, attempts, sign, valid_header_value, is_permanent_transport_error,
}
use codesign.Client.Metadata.{IsPrintable, validate_headers_iff, sign_once_iff}
use codesign.Client.Replace.{Writing, write_atomic, sign_file}
use codesign.Client.Replace.Contents.{
  IsNew, Leftover, FileSigned, write_atomic-content, sign_file-FileSigned,
}
use codesign.Client.Retry.{Run, sign-Run}
use codesign.Common.Errors.{Error, Result, ok, err, fault, hostname, is_ok}
use codesign.Common.Store.{Store, content}
use codesign.Text.FilePath.{base}
use codesign.Text.Utf8.{runes_skip, decode_rune}

abbrev pub config : Config
config = record { url = codes "https://sign"; token = codes "abc"; retries = 2 }

abbrev pub options : SignOptions
options = record { name = codes "App"; url = [] }

abbrev pub attempt_of : Exchange → Attempt
attempt_of x = record { waiting = ok tt; creating = ok tt; exchange = λ post. x }

-- A gateway that is not there, then the service.
abbrev pub flaky : ℕ → Attempt
flaky zero = attempt_of (replied 502 (codes "502 Bad Gateway") [] none)
flaky (suc _) = attempt_of (replied 200 (codes "200 OK") (codes "signed") none)

abbrev rejected : ℕ → Attempt
rejected _ = attempt_of (unsent (fault hostname))

second_try : sign config flaky (codes "a.exe") (codes "file") options ≡ ok (codes "signed")
unfolding sign validate_headers valid_header_value runes_skip decode_rune any attempts sign_once
    judge
second_try = refl

sign-Run_example :
    ((e : Error) × (validate_headers (codes "a.exe") options ≡ err e)
      × (sign config flaky (codes "a.exe") (codes "file") options ≡ err e))
    ⊎ ((validate_headers (codes "a.exe") options ≡ ok tt)
        × Run
            (sign_post config (codes "a.exe") (codes "file") options)
            flaky
            0
            2
            (sign config flaky (codes "a.exe") (codes "file") options))
sign-Run_example = sign-Run config flaky (codes "a.exe") (codes "file") options

no_retry :
    (sign_once (sign_post config (codes "a.exe") (codes "file") options) (rejected 0)).1 ≡ false
unfolding sign_once judge is_permanent_transport_error
no_retry = refl

validate_headers_iff_example :
    (validate_headers (codes "a\nb") options ≡ ok tt)
    ↔ (IsPrintable (codes "a\nb") × IsPrintable (codes "App") × IsPrintable [])
validate_headers_iff_example = validate_headers_iff (codes "a\nb") options

sign_once_iff_example :
    ((sign_once (sign_post config (codes "a.exe") (codes "file") options) (flaky 1)).0
      ≡ ok (codes "signed"))
    ↔ ((◌≡◌ {A = Result (Unit {0})} (ok tt) (ok tt))
        × (line : Bytes) × (replied 200 (codes "200 OK") (codes "signed") none
            ≡ replied 200 line (codes "signed") none))
sign_once_iff_example =
    sign_once_iff (sign_post config (codes "a.exe") (codes "file") options) (flaky 1)
      (codes "signed")

abbrev pub writing : Writing
writing = record {
  reading = ok tt;
  temp = ok (codes "a.exe.signing-1");
  written = none;
  closed = ok tt;
  output_stat = ok 420;
  input_stat = ok 420;
  chmod = λ mode. ok tt;
  removed = ok tt;
  renamed = ok tt;
}

abbrev pub folder : Store
folder = (codes "a.exe", codes "file") ∷ []

writing-IsNew : IsNew writing folder
unfolding content equal
writing-IsNew temp is_temp = fresh temp (cc)
  where
    fresh : (t : Bytes) → t ≡ codes "a.exe.signing-1" → content t folder ≡ none
    fresh t same = rw same refl

write_atomic-content_example :
    Leftover writing (codes "a.exe")
    ⊎ (content (codes "a.exe") (write_atomic writing (codes "signed") (codes "a.exe") folder).0 ≡ (
        if is_ok (write_atomic writing (codes "signed") (codes "a.exe") folder).1
          && equal (codes "a.exe") (codes "a.exe")
        then some (codes "signed")
        else content (codes "a.exe") folder))
write_atomic-content_example =
    write_atomic-content writing (codes "signed") (codes "a.exe") (codes "a.exe") folder
      writing-IsNew

sign_file-FileSigned_example :
    FileSigned writing
      (codes "a.exe")
      (codes "a.exe")
      folder
      (λ file. sign config flaky (base (codes "a.exe")) file options)
      (sign_file config flaky writing (codes "a.exe") [] options folder)
sign_file-FileSigned_example =
    sign_file-FileSigned config flaky writing (codes "a.exe") [] options folder writing-IsNew
