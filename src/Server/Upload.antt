-- ===== src/Server/Upload.antt =====
-- `signUpload`, `writeSigned` and `withToken` of server/server.go, over the files of the work
-- directory. What the operating system, the client and the other requests do in one call is an
-- argument, `Outcomes`.
pub mod Safety
pub mod Submission
pub mod Served
pub mod Unsent
pub mod Success
use codesign.Common.{
  ℕ, ◌+◌, Bool, [], ◌∷◌, ◌++◌, Option, none, some, Bytes, codes, length, take, ltb, if◌then◌else◌,
}
use codesign.Common.Errors.{
  Error, Result, ok, err, wrap, annotate, fault, max_bytes, not_exist, ◌>>=◌,
}
use codesign.Common.Store.{Store, content, put, rename, remove_all}
use codesign.Server.Detect.{file_reader, Kind, detect_kind}
use codesign.Server.Extension.{safe_extension}
use codesign.Server.Headers.{signing_request}
use codesign.Server.Response.{Response, write_body, declare_length}
use codesign.Signer.{Request}
use codesign.Text.Fold.{Tables}

-- `Signer.Sign`: what it does to the files, and its error.
abbrev pub Signer : Type 0
Signer = Request → Store → Store × Result (Unit {0})

-- The body that a client sends, and the error that ends it, if it does not end well.
pub record Body : Type 0 where
  pub sent : Bytes
  pub broken : Option Error

-- How `withToken` gets on: the slot is granted, the context ends first, or it has ended when the
-- slot is granted.
pub data Turn : Type 0 where
  granted : Turn
  canceled granted_late : Error → Turn

-- How much of the signed file the client takes, where it does not take all of it.
abbrev pub Delivery : Type 0
Delivery = Option (ℕ × Error)

pub record Outcomes : Type 0 where
  pub temp_dir : Result Bytes
  pub create : Result (Unit {0})
  pub upload_stat : Result (Unit {0})
  pub renaming : Result (Unit {0})
  pub turn : Turn
  pub output_stat : Result (Unit {0})
  pub delivery : Delivery
  pub stays : Bytes → Bool  -- what `os.RemoveAll` leaves of the directory

-- What `signUpload` and `handleSign` read of a request.
pub record SignRequest : Type 0 where
  pub body : Body
  pub filename : Bytes
  pub name : Bytes
  pub url : Bytes

abbrev pub ended : Option Error → Result (Unit {0})
ended none = ok tt
ended (some e) = err e

-- `io.Copy` of the body behind `http.MaxBytesReader`: the bytes that reach the file, and the error.
unfoldable pub copy_body : ℕ → Body → Bytes × Result (Unit {0})
copy_body limit body =
    if ltb limit (length body.sent)
    then (take limit body.sent, err (fault max_bytes))
    else (body.sent, ended body.broken)

-- `withToken` around an operation on some shared state.
unfoldable pub with_token :
    {S : Type 0} → Turn → (S → S × Result (Unit {0})) → S → S × Result (Unit {0})
with_token granted operation s = operation s
with_token (canceled e) operation s = (s, err (wrap (codes "token operation canceled") e))
with_token (granted_late e) operation s = (s, err (wrap (codes "token operation canceled") e))

-- `io.Copy` into the response writes nothing for an empty file.
abbrev pub copy_out : Bytes → Response → Response
copy_out [] r = r
copy_out (c ∷ b) r = write_body (c ∷ b) r

abbrev pub delivered : Bytes → Delivery → Response → Response × Result (Unit {0})
delivered signed none r = (copy_out signed r, ok tt)
delivered signed (some (n, e)) r =
    (copy_out (take n signed) r, err (wrap (codes "writing signed file") e))

abbrev pub send_signed :
    Delivery → Bytes → Response → Result (Unit {0}) → Response × Result (Unit {0})
send_signed d signed r (err e) = (r, err (wrap (codes "statting signed file") e))
send_signed d signed r (ok _) = delivered signed d (declare_length (some (length signed)) r)

-- `writeSigned`: the file that is opened, if it is there.
unfoldable pub write_signed : Outcomes → Option Bytes → Response → Response × Result (Unit {0})
write_signed o none r = (r, err (wrap (codes "opening signed file") (fault not_exist)))
write_signed o (some signed) r = send_signed o.delivery signed r o.output_stat

-- The files and the response as a call leaves them, with its result.
abbrev pub Outcome : Type 0
Outcome = Store × Response × Result ℕ

abbrev pub child : Bytes → Bytes → Bytes
child dir name = dir ++ (b'/' ∷ name)

-- The end of `signUpload`: the backend has answered.
abbrev pub answered : Outcomes → ℕ → Bytes → Response → Store × Result (Unit {0}) → Outcome
answered o size output r (s, err e) = (s, r, err (wrap (codes "backend") e))
answered o size output r (s, ok _) =
    let (r', result) = write_signed o (content output s) r in (s, r', result >>= λ _. ok size)

-- The upload is of this kind and stands at its final place.
abbrev pub submit : Signer → Outcomes → ℕ → Response → Store → Result Request → Outcome
submit sign o size r s (err e) = (s, r, err e)
submit sign o size r s (ok request) =
    answered o size request.output_path r (with_token o.turn (sign request) s)

abbrev pub input_of : Bytes → Bytes → Bytes
input_of dir ext = child dir (codes "input" ++ ext)

abbrev pub output_of : Bytes → Bytes → Bytes
output_of dir ext = child dir (codes "output" ++ ext)

-- The upload is renamed, or not.
abbrev pub moved :
    Signer
    → Outcomes
    → Bytes
    → SignRequest
    → ℕ
    → Bytes
    → Response
    → Store
    → Result (Unit {0})
    → Outcome
moved sign o dir req size ext r s (err e) = (s, r, err (wrap (codes "naming temp file") e))
moved sign o dir req size ext r s (ok _) =
    submit sign o size r (rename (child dir (codes "upload")) (input_of dir ext) s)
      (signing_request (input_of dir ext) (output_of dir ext) req.name req.url)

abbrev pub named :
    Tables → Signer → Outcomes → Bytes → SignRequest → ℕ → Response → Store → Result Kind → Outcome
named u sign o dir req size r s (err e) = (s, r, err e)
named u sign o dir req size r s (ok kind) =
    moved sign o dir req size (safe_extension u req.filename kind) r s o.renaming

abbrev pub received :
    Tables
    → Signer
    → Outcomes
    → Bytes
    → SignRequest
    → Response
    → Store
    → Bytes × Result (Unit {0})
    → Outcome
received u sign o dir req r s (uploaded, err e) =
    (put (child dir (codes "upload")) uploaded s, r, err (wrap (codes "reading request body") e))
received u sign o dir req r s (uploaded, ok _) =
    named u sign o dir req (length uploaded) r (put (child dir (codes "upload")) uploaded s)
      (detect_kind (o.upload_stat >>= λ _. ok (length uploaded)) (file_reader uploaded))

-- Everything behind the deferred removal of the directory: the upload file is created, or not.
unfoldable pub in_dir :
    Tables
    → Signer
    → ℕ
    → Outcomes
    → Bytes
    → SignRequest
    → Response
    → Store
    → Result (Unit {0})
    → Outcome
in_dir u sign limit o dir req r s (err e) = (s, r, err (wrap (codes "creating upload file") e))
in_dir u sign limit o dir req r s (ok _) = received u sign o dir req r s (copy_body limit req.body)

abbrev pub cleaned : (Bytes → Bool) → Bytes → Outcome → Outcome
cleaned stays dir (s, r, result) = (remove_all stays dir s, r, result)

abbrev pub in_temp :
    Tables → Signer → ℕ → Outcomes → SignRequest → Response → Store → Result Bytes → Outcome
in_temp u sign limit o req r s (err e) = (s, r, err (wrap (codes "creating temp dir") e))
in_temp u sign limit o req r s (ok dir) =
    cleaned o.stays dir (in_dir u sign limit o dir req r s o.create)

unfoldable pub sign_upload :
    Tables → Signer → ℕ → Outcomes → SignRequest → Response → Store → Outcome
sign_upload u sign limit o req r s = in_temp u sign limit o req r s o.temp_dir
