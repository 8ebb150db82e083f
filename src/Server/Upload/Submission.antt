-- ===== src/Server/Upload/Submission.antt =====
-- The backend's part of a successful `signUpload`: the token, the signing, and the reply.
use codesign.Common.{
  ℕ, ◌+◌, ◌≡◌, refl, sym, ap, ◌∙◌, false, [], ◌∷◌, Option, none, some, arith, Bytes, length, ltb,
}
use codesign.Common.Errors.{Result, ok, err, bind-eq-ok}
use codesign.Common.Store.{Store, content}
use codesign.Server.Response.{Response, fresh_response, write_body}
use codesign.Server.Upload.{
  Signer, Turn, granted, canceled, granted_late, Delivery, Outcomes, with_token, send_signed,
  write_signed, answered, submit,
}
use codesign.Signer.{Request}

-- The complete reply with a file. (The header goes out with the first byte.)
abbrev pub reply_with : Bytes → Response
reply_with [] = record { status = none; content_length = some 0; body = [] }
reply_with (c ∷ b) = record {
  status = some 200;
  content_length = some (length (c ∷ b));
  body = c ∷ b;
}

not_longer : (n : ℕ) → ltb n (0 + n) ≡ false
not_longer n = ground arith

send_signed_ok :
    (d : Delivery) (signed : Bytes) (x : Result (Unit {0})) {y : Unit {0}}
    → (send_signed d signed fresh_response x).1 ≡ ok y
    → (send_signed d signed fresh_response x).0 ≡ reply_with signed
unfolding write_body
send_signed_ok d signed (err e) h = cc
send_signed_ok (some (n, e)) signed (ok x) h = cc
send_signed_ok none [] (ok x) h = refl
send_signed_ok none (c ∷ b) (ok x) h = rw (not_longer (length (c ∷ b)))

write_signed_ok :
    (o : Outcomes) (c : Option Bytes) {y : Unit {0}}
    → (write_signed o c fresh_response).1 ≡ ok y
    → (signed : Bytes) × (c ≡ some signed)
      × ((write_signed o c fresh_response).0 ≡ reply_with signed)
unfolding write_signed
write_signed_ok o none h = cc
write_signed_ok o (some signed) h = (signed, refl, send_signed_ok o.delivery signed o.output_stat h)

with_token_ok :
    (t : Turn) (operation : Store → Store × Result (Unit {0})) (s : Store) {y : Unit {0}}
    → (with_token t operation s).1 ≡ ok y
    → (t ≡ granted) × (with_token t operation s ≡ operation s)
unfolding with_token
with_token_ok granted operation s h = (refl, refl)
with_token_ok (canceled e) operation s h = cc
with_token_ok (granted_late e) operation s h = cc

-- The backend signed the request over these files, and the client got the output.
pub record Signs (sign : Signer) (o : Outcomes) (before : Store) (request : Request)
    (reply : Response) : Type 0 where
  pub turn_is : o.turn ≡ granted
  pub signs : (sign request before).1 ≡ ok tt
  pub signed : Bytes
  pub output_holds : content request.output_path (sign request before).0 ≡ some signed
  pub reply_is : reply ≡ reply_with signed

answered_ok :
    (o : Outcomes) (size : ℕ) (output : Bytes) (p : Store × Result (Unit {0})) {n : ℕ}
    → (answered o size output fresh_response p).2 ≡ ok n
    → (p.1 ≡ ok tt)
      × (size ≡ n)
      × (signed : Bytes) × (content output p.0 ≡ some signed)
      × ((answered o size output fresh_response p).1 ≡ reply_with signed)
answered_ok o size output (s, err e) h = cc
answered_ok o size output (s, ok x) h =
    let (y, written, same) =
      bind-eq-ok (write_signed o (content output s) fresh_response).1 (λ _. ok size) h in
    let (signed, holds, reply) = write_signed_ok o (content output s) written in
    (refl, cc, signed, holds, reply)

pub submit_ok :
    (sign : Signer) (o : Outcomes) (size : ℕ) (s : Store) (x : Result Request) {n : ℕ}
    → (submit sign o size fresh_response s x).2 ≡ ok n
    → (request : Request) × (x ≡ ok request)
      × (size ≡ n)
      × Signs sign o s request (submit sign o size fresh_response s x).1
submit_ok sign o size s (err e) h = cc
submit_ok sign o size s (ok request) h =
    let (signs, same, signed, holds, reply) =
      answered_ok o size request.output_path (with_token o.turn (sign request) s) h in
    let (turn, op) = with_token_ok o.turn (sign request) s signs in
    (
      request,
      refl,
      same,
      record {
        turn_is = turn;
        signs = sym (ap (λ p. p.1) op) ∙ signs;
        signed = signed;
        output_holds = sym (ap (λ p. content request.output_path p.0) op) ∙ holds;
        reply_is = reply;
      },
    )
