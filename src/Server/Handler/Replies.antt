-- ===== src/Server/Handler/Replies.antt =====
-- What the caller of /v1/sign is told.
use codesign.Common.{
  ℕ, ◌<◌, ◌≤◌, ◌≡◌, ◌≢◌, refl, sym, ◌∙◌, ap, [], ◌∷◌, ◌++◌, none, some, arith, Bytes, codes, ltb,
  inl, inr, Bool-cases,
}
use mathlib.Core.Path.{subst}
use codesign.Common.Errors.{
  err_injective, Error, Result, ok, err, cause, Result-cases, sentinel, not_signable, bad_metadata,
  fault, max_bytes,
}
use codesign.Common.Store.{Store}
use codesign.Server.Auth.{Config, Caller, authenticate}
use codesign.Server.Handler.{
  Daemon, sign_error_reply, reply_sign_error, answer, let_in, handle_sign, max_in_flight_uploads,
}
use codesign.Server.Loopback.{Net}
use codesign.Server.Response.{Response, fresh_response, http_error, write_body}
use codesign.Server.Upload.{Signer, Outcomes, SignRequest, Outcome, sign_upload}
use codesign.Server.Upload.Served.{Served, sign_upload-Served}
use codesign.Server.Upload.Unsent.{sign_upload-unsent}
use codesign.Text.Fold.{Tables}

-- A status and a line of text.
abbrev pub plain : ℕ → Bytes → Response
plain status message = record {
  status = some status;
  content_length = none;
  body = message ++ (b'\n' ∷ []);
}

http_error-plain :
    (message : Bytes) (status : ℕ) → http_error message status fresh_response ≡ plain status message
unfolding http_error write_body
http_error-plain message status = refl

-- The status and the message that a caller is told of an innermost error.
abbrev pub Told : Error → ℕ → Bytes → Type 0
Told e status message =
    (e ≡ sentinel not_signable
      → (status ≡ 415) × (message ≡ codes "request body is not a PE or MSI file"))
    × (e ≡ fault max_bytes → (status ≡ 413) × (message ≡ codes "request body too large"))
    × (e ≡ sentinel bad_metadata
        → (status ≡ 400) × (message ≡ codes "authenticode name or url is invalid"))
    × (e ≢ sentinel not_signable
        → e ≢ fault max_bytes
        → e ≢ sentinel bad_metadata
        → (status ≡ 500) × (message ≡ codes "signing failed"))

other_reply :
    (e : Error)
    → e ≢ sentinel not_signable
    → e ≢ fault max_bytes
    → e ≢ sentinel bad_metadata
    → sign_error_reply e ≡ (500, codes "signing failed")
unfolding sign_error_reply
other_reply e a b c = grind arith

sign_error_reply-Told : (e : Error) → Told e (sign_error_reply e).0 (sign_error_reply e).1
unfolding sign_error_reply
sign_error_reply-Told e = (
  λ h. rw h (refl, refl),
  λ h. rw h (refl, refl),
  λ h. rw h (refl, refl),
  λ a b c. let h = other_reply e a b c in (ap (λ p. p.0) h, ap (λ p. p.1) h),
)

module _ (u : Tables) (sign : Signer) (limit : ℕ) (o : Outcomes) (req : SignRequest)
    (dir : Bytes) where
  -- A slot was free; the caller has the signed file, or the status and the message of the failure.
  pub data Handled (files : Store) (reply : Response) : Type 0 where
    signed : (n : ℕ) → Served u sign limit o req dir n reply → Handled files reply
    failed :
        (e : Error) (status : ℕ) (message : Bytes)
        → (sign_upload u sign limit o req fresh_response files).2 ≡ err e
        → Told (cause e) status message
        → reply ≡ plain status message
        → Handled files reply

  -- What `handleSign` can come to.
  pub data Replied {S : Type 0} (d : Daemon S) (x : S × Result Bytes) (reply : Response)
      : Type 0 where
    rejected :
        (e : Error) → x.1 ≡ err e → reply ≡ plain 401 (codes "unauthorized") → Replied d x reply
    busy :
        (caller : Bytes)
        → x.1 ≡ ok caller
        → max_in_flight_uploads ≤ d.uploads
        → reply ≡ plain 503 (codes "too many signing requests")
        → Replied d x reply
    handled :
        (caller : Bytes)
        → x.1 ≡ ok caller
        → d.uploads < max_in_flight_uploads
        → Handled d.files reply
        → Replied d x reply

  pub answer-ok : (p : Outcome) {n : ℕ} → p.2 ≡ ok n → (answer p).1 ≡ p.1
  answer-ok (s, r, ok n) h = refl
  answer-ok (s, r, err e) h = cc

  answer-err :
      (p : Outcome) {e : Error}
      → p.1 ≡ fresh_response
      → p.2 ≡ err e
      → (answer p).1 ≡ plain (sign_error_reply (cause e)).0 (sign_error_reply (cause e)).1
  unfolding reply_sign_error
  answer-err (s, r, ok n) is_fresh h = cc
  answer-err (s, r, err e) is_fresh h =
      ap (reply_sign_error e) is_fresh
      ∙ http_error-plain (sign_error_reply (cause e)).1 (sign_error_reply (cause e)).0
      ∙ ap (λ x. plain (sign_error_reply (cause x)).0 (sign_error_reply (cause x)).1)
          (err_injective {A = ℕ} h)

  answer-Handled :
      (s : Store)
      → o.temp_dir ≡ ok dir
      → o.delivery ≡ none
      → Handled s (answer (sign_upload u sign limit o req fresh_response s)).1
  answer-Handled s is_dir whole =
      elim (Result-cases (sign_upload u sign limit o req fresh_response s).2) [
        | inl (n, done) ↦ signed n (
            subst (Served u sign limit o req dir n) (sym (answer-ok _ done))
              (sign_upload-Served u sign limit o req s dir n is_dir done))
        | inr (e, failure) ↦ failed e _ _ failure (sign_error_reply-Told (cause e)) (
            answer-err _ (sign_upload-unsent u sign limit o req fresh_response s whole failure)
              failure)
      ]

  module _ {S : Type 0} (is_dir : o.temp_dir ≡ ok dir) (whole : o.delivery ≡ none)
      (d : Daemon S) where
    let_in-Replied : (x : S × Result Bytes) → Replied d x (let_in u sign limit o req d x).1
    let_in-Replied (keys, err e) = rejected e refl (http_error-plain (codes "unauthorized") 401)
    let_in-Replied (keys, ok caller) = elim (Bool-cases (ltb d.uploads max_in_flight_uploads)) [
      | inl free ↦
          handled caller refl (ground arith) (rw free (answer-Handled d.files is_dir whole))
      | inr full ↦
          busy caller refl (ground arith)
            (rw full (http_error-plain (codes "too many signing requests") 503))
    ]

pub handle_sign-Replied :
    {S : Type 0} (u : Tables) (net : Net) (config : Config S) (sign : Signer) (limit : ℕ)
    (o : Outcomes) (caller : Caller) (req : SignRequest) (d : Daemon S) (dir : Bytes)
    → o.temp_dir ≡ ok dir
    → o.delivery ≡ none
    → Replied u sign limit o req dir d
        (authenticate u net config caller d.keys)
        (handle_sign u net config sign limit o caller req d).1
unfolding handle_sign
handle_sign-Replied u net config sign limit o caller req d dir is_dir whole =
    let_in-Replied u sign limit o req dir is_dir whole d (authenticate u net config caller d.keys)
