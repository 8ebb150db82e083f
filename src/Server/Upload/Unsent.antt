-- ===== src/Server/Upload/Unsent.antt =====
-- Where `signUpload` fails, the client has got nothing yet, unless it was the sending that failed.
use codesign.Common.{ℕ, ◌≡◌, refl, Option, none, some, Bytes, length}
use codesign.Common.Errors.{Error, Result, ok, err, ◌>>=◌}
use codesign.Common.Store.{Store, content}
use codesign.Server.Detect.{file_reader, Kind, detect_kind}
use codesign.Server.Extension.{safe_extension}
use codesign.Server.Headers.{signing_request}
use codesign.Server.Response.{Response}
use codesign.Server.Upload.{
  Signer, Delivery, Outcomes, SignRequest, with_token, send_signed, write_signed, answered, submit,
  input_of, output_of, moved, named, received, in_dir, copy_body, in_temp, sign_upload,
}
use codesign.Signer.{Request}
use codesign.Text.Fold.{Tables}

send_signed_err :
    (d : Delivery) (signed : Bytes) (r : Response) (x : Result (Unit {0})) {e : Error}
    → d ≡ none
    → (send_signed d signed r x).1 ≡ err e
    → (send_signed d signed r x).0 ≡ r
send_signed_err d signed r (err _) whole h = refl
send_signed_err (some _) signed r (ok _) whole h = cc
send_signed_err none signed r (ok _) whole h = cc

module _ (u : Tables) (sign : Signer) (o : Outcomes) (dir : Bytes) (req : SignRequest)
    (r : Response) (whole : o.delivery ≡ none) where
  write_signed_err :
      (c : Option Bytes) {e : Error} → (write_signed o c r).1 ≡ err e → (write_signed o c r).0 ≡ r
  unfolding write_signed
  write_signed_err none h = refl
  write_signed_err (some signed) h = send_signed_err o.delivery signed r o.output_stat whole h

  then_size :
      (size : ℕ) (x : Result (Unit {0})) {e : Error} → (x >>= λ _. ok size) ≡ err e → x ≡ err e
  then_size size (err e) h = cc
  then_size size (ok _) h = cc

  answered_err :
      (size : ℕ) (output : Bytes) (p : Store × Result (Unit {0})) {e : Error}
      → (answered o size output r p).2 ≡ err e
      → (answered o size output r p).1 ≡ r
  answered_err size output (s, err _) h = refl
  answered_err size output (s, ok _) h =
      write_signed_err (content output s) (then_size size (write_signed o (content output s) r).1 h)

  submit_err :
      (size : ℕ) (s : Store) (x : Result Request) {e : Error}
      → (submit sign o size r s x).2 ≡ err e
      → (submit sign o size r s x).1 ≡ r
  submit_err size s (err _) h = refl
  submit_err size s (ok request) h =
      answered_err size request.output_path (with_token o.turn (sign request) s) h

  moved_err :
      (size : ℕ) (ext : Bytes) (s : Store) (x : Result (Unit {0})) {e : Error}
      → (moved sign o dir req size ext r s x).2 ≡ err e
      → (moved sign o dir req size ext r s x).1 ≡ r
  moved_err size ext s (err _) h = refl
  moved_err size ext s (ok _) h =
      submit_err size _ (signing_request (input_of dir ext) (output_of dir ext) req.name req.url) h

  named_err :
      (size : ℕ) (s : Store) (x : Result Kind) {e : Error}
      → (named u sign o dir req size r s x).2 ≡ err e
      → (named u sign o dir req size r s x).1 ≡ r
  named_err size s (err _) h = refl
  named_err size s (ok kind) h = moved_err size (safe_extension u req.filename kind) s o.renaming h

  received_err :
      (s : Store) (x : Bytes × Result (Unit {0})) {e : Error}
      → (received u sign o dir req r s x).2 ≡ err e
      → (received u sign o dir req r s x).1 ≡ r
  received_err s (uploaded, err _) h = refl
  received_err s (uploaded, ok _) h =
      named_err (length uploaded) _
        (detect_kind (o.upload_stat >>= λ _. ok (length uploaded)) (file_reader uploaded)) h

  in_dir_err :
      (limit : ℕ) (s : Store) (x : Result (Unit {0})) {e : Error}
      → (in_dir u sign limit o dir req r s x).2 ≡ err e
      → (in_dir u sign limit o dir req r s x).1 ≡ r
  unfolding in_dir
  in_dir_err limit s (err _) h = refl
  in_dir_err limit s (ok _) h = received_err s (copy_body limit req.body) h

in_temp_err :
    (u : Tables) (sign : Signer) (limit : ℕ) (o : Outcomes) (req : SignRequest) (r : Response)
    (s : Store) (x : Result Bytes) {e : Error}
    → o.delivery ≡ none
    → (in_temp u sign limit o req r s x).2 ≡ err e
    → (in_temp u sign limit o req r s x).1 ≡ r
in_temp_err u sign limit o req r s (err _) whole h = refl
in_temp_err u sign limit o req r s (ok dir) whole h =
    in_dir_err u sign o dir req r whole limit s o.create h

pub sign_upload-unsent :
    (u : Tables) (sign : Signer) (limit : ℕ) (o : Outcomes) (req : SignRequest) (r : Response)
    (s : Store) {e : Error}
    → o.delivery ≡ none
    → (sign_upload u sign limit o req r s).2 ≡ err e
    → (sign_upload u sign limit o req r s).1 ≡ r
unfolding sign_upload
sign_upload-unsent u sign limit o req r s whole h =
    in_temp_err u sign limit o req r s o.temp_dir whole h
