-- ===== src/Client/Wire/Delivered.antt =====
-- One attempt of the client at the server, from the file that it sends to the file that it gets.
use codesign.Common.{ℕ, ◌≡◌, ◌≢◌, ◌⊎◌, sym, ap, ◌∙◌, Option, none, some, Bytes, arith}
use codesign.Common.Errors.{
  Error, Result, ok, cause, sentinel, not_signable, bad_metadata, fault, max_bytes,
}
use codesign.Client.{Config, SignOptions, Post, Attempt, Exchange, replied, sign_post, sign_once}
use codesign.Client.Metadata.{sign_once_iff}
use codesign.Client.Wire.{IsPlainToken, wire_value, caller_of, request_of, Reads, sign_post-Reads}
use codesign.Server.Auth.{Config as ServerConfig, authenticate}
use codesign.Server.Handler.{Daemon, handle_sign}
use codesign.Common.Store.{content}
use codesign.Signer.{check}
use codesign.Signer.Contract.{Backend}
use codesign.Server.Handler.Backed.{Backend-StaysIn, signs-checked}
use codesign.Server.Upload.Safety.{LeftBehind}
use codesign.Server.Handler.Cleanup.{IsFresh, handle_sign-restores}
use codesign.Server.Handler.Replies.{
  Told, Replied, rejected, busy, handled, signed, failed, handle_sign-Replied,
}
use codesign.Server.Loopback.{Net}
use codesign.Server.Response.{Response}
use codesign.Server.Upload.{Outcomes}
use codesign.Server.Upload.Served.{Served}
use codesign.Text.Fold.{Tables}
use codesign.Text.Space.{trim_space}

-- `net/http` sends status 200 where a handler has sent none; the whole body arrives.
abbrev pub status_or : Option ℕ → ℕ
status_or none = 200
status_or (some status) = status

abbrev pub exchange_of : Bytes → Response → Exchange
exchange_of line reply = replied (status_or reply.status) line reply.body none

Told-fails : (e : Error) (status : ℕ) (message : Bytes) → Told e status message → ¬ (status ≡ 200)
Told-fails e status message (a, b, c, d) is_200 = apart e_is_a
  where
    distinct : (x : ℕ) → ¬ (x ≡ 200) → ¬ (status ≡ x)
    distinct x other h = other (sym h ∙ is_200)

    e_is_a : e ≢ sentinel not_signable
    e_is_a h = distinct 415 (λ k. omega (arith, k)) (a h).0

    e_is_b : e ≢ fault max_bytes
    e_is_b h = distinct 413 (λ k. omega (arith, k)) (b h).0

    e_is_c : e ≢ sentinel bad_metadata
    e_is_c h = distinct 400 (λ k. omega (arith, k)) (c h).0

    apart : e ≢ sentinel not_signable → ⊥
    apart n = distinct 500 (λ k. omega (arith, k)) (d n e_is_b e_is_c).0

module _ {S : Type 0} (u : Tables) (net : Net) (server : ServerConfig S) (backend : Backend)
    (limit : ℕ) (o : Outcomes) (d : Daemon S) (remote_addr line : Bytes) where
  -- The server handles a request, as this daemon is.
  abbrev pub exchanged : Post → Daemon S × Response
  exchanged post =
      handle_sign u net server backend.sign limit o (caller_of remote_addr post) (request_of post) d

  -- An attempt that reaches the server.
  abbrev pub at_server : Result (Unit {0}) → Result (Unit {0}) → Attempt
  at_server waiting creating = record {
    waiting = waiting;
    creating = creating;
    exchange = λ post. exchange_of line (exchanged post).1;
  }

  not_200 : (status : ℕ) (x : Option ℕ) → ¬ (status ≡ 200) → x ≡ some status → ¬ (status_or x ≡ 200)
  not_200 status x other is h = other (sym (ap status_or is) ∙ h)

  module _ (config : Config) (filename file : Bytes) (opts : SignOptions) where
    abbrev pub sent : Post
    sent = sign_post config filename file opts

    -- What stands behind a signed file that the client gets.
    pub record Delivered (dir new : Bytes) : Type 0 where
      pub reads : Reads u config filename file opts remote_addr sent
      pub caller : Bytes
      pub authenticated :
          (authenticate u net server (caller_of remote_addr sent) d.keys).1 ≡ ok caller
      pub size : ℕ
      pub served : Served u backend.sign limit o (request_of sent) dir size (exchanged sent).1
      pub signed_name : served.request.name ≡ trim_space (wire_value opts.name)
      pub signed_url : served.request.url ≡ trim_space (wire_value opts.url)
      pub checked : check (backend.same_file served.request served.before) served.request ≡ ok tt
      pub body : (exchanged sent).1.body ≡ new
      pub slots : (exchanged sent).0.uploads ≡ d.uploads
      pub restored :
          (q : Bytes)
          → LeftBehind dir o q ⊎ (content q (exchanged sent).0.files ≡ content q d.files)

    Replied-Delivered :
        (dir new : Bytes)
        → IsPlainToken config.token
        → status_or (exchanged sent).1.status ≡ 200
        → (exchanged sent).1.body ≡ new
        → ((q : Bytes)
            → ((exchanged sent).0.uploads ≡ d.uploads)
              × (LeftBehind dir o q ⊎ (content q (exchanged sent).0.files ≡ content q d.files)))
        → Replied u backend.sign limit o
            (request_of sent)
            dir
            d
            (authenticate u net server (caller_of remote_addr sent) d.keys)
            (exchanged sent).1
        → Delivered dir new
    Replied-Delivered dir new plain is_200 body restored (rejected e refused is) =
        absurd (not_200 401 _ (λ k. omega (arith, k)) (ap (λ r. r.status) is) is_200)
    Replied-Delivered dir new plain is_200 body restored (busy caller known full is) =
        absurd (not_200 503 _ (λ k. omega (arith, k)) (ap (λ r. r.status) is) is_200)
    Replied-Delivered dir new plain is_200 body restored
          (handled caller known free (failed e status message failure told is)) =
        absurd (
          not_200 status _ (Told-fails (cause e) status message told) (ap (λ r. r.status) is)
            is_200)
    Replied-Delivered dir new plain is_200 body restored
          (handled caller known free (signed n served)) =
        let reads = sign_post-Reads u config filename file opts remote_addr plain in
        record {
          reads = reads;
          caller = caller;
          authenticated = known;
          size = n;
          served = served;
          signed_name = served.name_is ∙ ap trim_space reads.same_name;
          signed_url = served.url_is ∙ ap trim_space reads.same_url;
          checked = signs-checked backend served.request served.before served.signing.signs;
          body = body;
          slots = (restored dir).0;
          restored = λ q. (restored q).1;
        }

-- Where an attempt of the client reaches the server, whatever the server's state, and gives a
-- signed file, the server has authenticated the request, in which it reads the client's token
-- unless that is blank, and has served it: as `Served` says, the backend has signed a file with
-- just the bytes that the client has sent, under the client's name and URL, without white space
-- around them, in a request that passed `Check`, and the signed file is what the backend has left
-- at the output path. Behind it the upload slots and all files of the server are as before, but for
-- files of the work directory that its removal has failed to remove. The backend is any one that keeps
-- the promise of a `Signer`; the server has made an empty work directory, nothing hinders the sending
-- of the file, and no white space is at the end of the token.
pub sign_once-Delivered :
    {S : Type 0} (u : Tables) (net : Net) (server : ServerConfig S) (backend : Backend) (limit : ℕ)
    (o : Outcomes) (d : Daemon S) (remote_addr line : Bytes) (waiting creating : Result (Unit {0}))
    (config : Config) (filename file : Bytes) (opts : SignOptions) (dir new : Bytes)
    → o.temp_dir ≡ ok dir
    → IsFresh dir d
    → o.delivery ≡ none
    → IsPlainToken config.token
    → (sign_once
        (sign_post config filename file opts)
        (at_server u net server backend limit o d remote_addr line waiting creating)).0
      ≡ ok new
    → Delivered u net server backend limit o d remote_addr line config filename file opts dir new
sign_once-Delivered u net server backend limit o d remote_addr line waiting creating config filename
      file opts dir new is_dir is_fresh whole plain done =
    let post = sign_post config filename file opts in
    let exchange =
      (sign_once_iff post
          (at_server u net server backend limit o d remote_addr line waiting creating) new).0
        done in
    let (is_200, body) = replied_inv exchange.2 in
    Replied-Delivered u net server backend limit o d remote_addr line config filename file opts dir
      new plain is_200 body
      (λ q.
        handle_sign-restores u net server backend.sign limit o (caller_of remote_addr post)
          (request_of post) d dir q is_dir (Backend-StaysIn backend dir) is_fresh)
      (handle_sign-Replied u net server backend.sign limit o (caller_of remote_addr post)
        (request_of post) d dir is_dir whole)
  where
    replied_inv :
        {a b : ℕ} {l m x y : Bytes}
        → ◌≡◌ {A = Exchange} (replied a l x none) (replied b m y none)
        → (a ≡ b) × (x ≡ y)
    replied_inv h = (cc, cc)
