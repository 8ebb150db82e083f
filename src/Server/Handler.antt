-- ===== src/Server/Handler.antt =====
-- `handleSign` and `replySignError` of server/server.go.
pub mod Replies
pub mod Cleanup
pub mod Late
pub mod Backed
pub mod Serving
use codesign.Common.{ℕ, ◌+◌, ◌-◌, Bool, [], Option, none, some, Bytes, codes, ltb, if◌then◌else◌}
use codesign.Common.Errors.{
  Error, Result, ok, err, cause, Sentinel, sentinel, not_signable, bad_metadata, Fault, fault,
  max_bytes,
}
use codesign.Common.Store.{Store}
use codesign.Server.Auth.{Config, Caller, authenticate}
use codesign.Server.Loopback.{Net}
use codesign.Server.Response.{Response, fresh_response, http_error}
use codesign.Server.Upload.{Signer, Outcomes, SignRequest, Outcome, sign_upload}
use codesign.Text.Fold.{Tables}

abbrev pub max_in_flight_uploads : ℕ
max_in_flight_uploads = 2

abbrev pub not_signable_message : Bytes
not_signable_message = codes "request body is not a PE or MSI file"

abbrev pub bad_metadata_message : Bytes
bad_metadata_message = codes "authenticode name or url is invalid"

-- The status and the message for an innermost error.
unfoldable pub sign_error_reply : Error → ℕ × Bytes
sign_error_reply (sentinel not_signable) = (415, not_signable_message)
sign_error_reply (fault max_bytes) = (413, codes "request body too large")
sign_error_reply (sentinel bad_metadata) = (400, bad_metadata_message)
sign_error_reply _ = (500, codes "signing failed")

unfoldable pub reply_sign_error : Error → Response → Response
unfolding sign_error_reply
reply_sign_error e r = let p = sign_error_reply (cause e) in http_error p.1 p.0 r

-- What the requests share: the state of the verifier, the slots of `uploads` that are taken, and
-- the files.
pub record Daemon (S : Type 0) : Type 0 where
  pub keys : S
  pub uploads : ℕ
  pub files : Store

-- The end of `handleSign`: the upload has succeeded, or not.
abbrev pub answer : Outcome → Store × Response
answer (files, r, ok size) = (files, r)
answer (files, r, err e) = (files, reply_sign_error e r)

module _ {S : Type 0} where
  -- The slot that was taken is given back.
  abbrev released : Daemon S → Store × Response → Daemon S × Response
  released d (files, r) = (record d { uploads = d.uploads + 1 - 1; files = files }, r)

  abbrev pub with_slot :
      Tables → Signer → ℕ → Outcomes → SignRequest → Daemon S → Daemon S × Response
  with_slot u sign limit o req d =
      if ltb d.uploads max_in_flight_uploads
      then released d (answer (sign_upload u sign limit o req fresh_response d.files))
      else (d, http_error (codes "too many signing requests") 503 fresh_response)

  abbrev pub let_in :
      Tables
      → Signer
      → ℕ
      → Outcomes
      → SignRequest
      → Daemon S
      → S × Result Bytes
      → Daemon S × Response
  let_in u sign limit o req d (keys, err e) =
      (record d { keys = keys }, http_error (codes "unauthorized") 401 fresh_response)
  let_in u sign limit o req d (keys, ok caller) =
      with_slot u sign limit o req (record d { keys = keys })

  unfoldable pub handle_sign :
      Tables
      → Net
      → Config S
      → Signer
      → ℕ
      → Outcomes
      → Caller
      → SignRequest
      → Daemon S
      → Daemon S × Response
  handle_sign u net config sign limit o caller req d =
      let_in u sign limit o req d (authenticate u net config caller d.keys)
