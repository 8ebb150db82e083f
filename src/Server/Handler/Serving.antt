-- ===== src/Server/Handler/Serving.antt =====
-- When /v1/sign does serve.
use codesign.Common.{ℕ, ◌<◌, ◌≡◌, sym, true, Bytes, arith, length, ltb}
use mathlib.Core.Path.{subst}
use codesign.Common.Errors.{Result, ok, err, err-ne-ok}
use codesign.Server.Auth.{Config, Caller, authenticate}
use codesign.Server.Detect.{Kind}
use codesign.Server.Handler.{Daemon, let_in, handle_sign, max_in_flight_uploads}
use codesign.Server.Handler.Replies.{answer-ok}
use codesign.Server.Loopback.{Net}
use codesign.Server.Response.{fresh_response}
use codesign.Server.Upload.{Signer, Outcomes, SignRequest, sign_upload}
use codesign.Server.Upload.Served.{Served, sign_upload-Served}
use codesign.Server.Upload.Success.{SignsAll, AllGoes, IsSignable, sign_upload_succeeds}
use codesign.Text.Fold.{Tables}

module _ {S : Type 0} (u : Tables) (sign : Signer) (limit : ℕ) (o : Outcomes) (req : SignRequest)
    (dir : Bytes) (signs : SignsAll sign) (goes : AllGoes o dir) (kind : Kind)
    (good : IsSignable limit req kind) (d : Daemon S) where
  upload-Served :
      Served u sign limit o req dir
        (length req.body.sent)
        (sign_upload u sign limit o req fresh_response d.files).1
  upload-Served =
      sign_upload-Served u sign limit o req d.files dir (length req.body.sent) goes.is_dir
        (sign_upload_succeeds u sign limit o req dir signs goes kind good fresh_response d.files)

  let_in-Served :
      (x : S × Result Bytes) (caller : Bytes)
      → x.1 ≡ ok caller
      → d.uploads < max_in_flight_uploads
      → Served u sign limit o req dir (length req.body.sent) (let_in u sign limit o req d x).1
  let_in-Served (keys, err e) caller passed free = absurd (err-ne-ok passed)
  let_in-Served (keys, ok _) caller passed free = rw has_slot (
      subst (Served u sign limit o req dir (length req.body.sent))
        (sym (
          answer-ok u sign limit o req dir _ (
            sign_upload_succeeds u sign limit o req dir signs goes kind good fresh_response
              d.files)))
        upload-Served)
    where
      has_slot : ltb d.uploads max_in_flight_uploads ≡ true
      has_slot = ground (arith, free)

-- A sign request of a caller who is authenticated is served, as `Served` says, where fewer than two
-- uploads are in flight, the body is a whole file of a signable kind within the limit, the name and
-- the URL are clean but for white space around them, every call of the system succeeds, the token
-- is granted, the client takes the whole reply, and the backend signs every file that is there to
-- another path.
pub handle_sign_serves :
    {S : Type 0} (u : Tables) (net : Net) (config : Config S) (sign : Signer) (limit : ℕ)
    (o : Outcomes) (caller : Caller) (req : SignRequest) (d : Daemon S) (dir who : Bytes)
    (kind : Kind)
    → (authenticate u net config caller d.keys).1 ≡ ok who
    → d.uploads < max_in_flight_uploads
    → IsSignable limit req kind
    → AllGoes o dir
    → SignsAll sign
    → Served u sign limit o req dir
        (length req.body.sent)
        (handle_sign u net config sign limit o caller req d).1
unfolding handle_sign
handle_sign_serves u net config sign limit o caller req d dir who kind passed free good goes signs =
    let_in-Served u sign limit o req dir signs goes kind good d
      (authenticate u net config caller d.keys) who passed free
