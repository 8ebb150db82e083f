-- ===== src/Server/Upload/Served.antt =====
-- What a successful `signUpload` has done.
use codesign.Common.{
  ℕ, ◌≤◌, ◌≡◌, ◌≢◌, refl, sym, ap, ◌∙◌, Bool, true, false, [], ◌∷◌, none, some, arith, Bytes, codes,
  length, equal, equal_self,
}
use mathlib.Core.Path.{subst}
use codesign.Common.Errors.{Result, ok, err, ◌>>=◌}
use codesign.Common.Store.{Store, content, put, rename, content-put, content-rename}
use codesign.Server.Detect.{file_reader, Kind, detect_kind}
use codesign.Server.Extension.{safe_extension}
use codesign.Server.Headers.{signing_request}
use codesign.Text.Space.{trim_space}
use codesign.Server.Headers.Metadata.{IsClean, signing_request-trimmed, signing_request_ok}
use codesign.Server.Response.{Response, fresh_response}
use codesign.Server.Upload.{
  Signer, Body, Outcomes, SignRequest, child, input_of, output_of, moved, named, received, in_dir,
  copy_body, in_temp, sign_upload,
}
use codesign.Signer.{Request}
use codesign.Text.Fold.{Tables}
use codesign.Server.Upload.Submission.{Signs, submit_ok}

copy_body_ok :
    (limit : ℕ) (body : Body) {y : Unit {0}}
    → (copy_body limit body).1 ≡ ok y
    → (length body.sent ≤ limit) × (body.broken ≡ none) × ((copy_body limit body).0 ≡ body.sent)
unfolding copy_body
copy_body_ok limit body h = ground arith

second_is_i : Bytes → Bool
second_is_i (_ ∷ c ∷ _) = equal (c ∷ []) (codes "i")
second_is_i _ = false

unequal : ¬ (◌≡◌ {A = Bool} true false)
unequal h = cc

pub input-ne-output : (dir e : Bytes) → input_of dir e ≢ output_of dir e
unfolding second_is_i equal
input-ne-output [] e h = unequal (ap second_is_i h)
input-ne-output (c ∷ dir) e h = input-ne-output dir e (tail_eq h)
  where
    tail_eq :
        ◌≡◌ {A = Bytes} (c ∷ input_of dir e) (c ∷ output_of dir e)
        → input_of dir e ≡ output_of dir e
    tail_eq k = cc

-- The backend got a request whose input file holds the client's bytes, all of them, whose output
-- path is another one, and whose metadata are the trimmed headers and clean; it signed it while it
-- held the token; and the client got the output file, whole.
pub record Served (u : Tables) (sign : Signer) (limit : ℕ) (o : Outcomes) (req : SignRequest)
    (dir : Bytes) (size : ℕ) (reply : Response) : Type 0 where
  pub fits : length req.body.sent ≤ limit
  pub unbroken : req.body.broken ≡ none
  pub size_is : size ≡ length req.body.sent
  pub kind : Kind
  pub detected : detect_kind (ok (length req.body.sent)) (file_reader req.body.sent) ≡ ok kind
  pub before : Store
  pub request : Request
  pub input_is : request.input_path ≡ input_of dir (safe_extension u req.filename kind)
  pub output_is : request.output_path ≡ output_of dir (safe_extension u req.filename kind)
  pub input_holds : content request.input_path before ≡ some req.body.sent
  pub apart : request.input_path ≢ request.output_path
  pub name_is : request.name ≡ trim_space req.name
  pub url_is : request.url ≡ trim_space req.url
  pub name_clean : IsClean request.name
  pub url_clean : IsClean request.url
  pub signing : Signs sign o before request reply

module _ (u : Tables) (sign : Signer) (limit : ℕ) (o : Outcomes) (req : SignRequest)
    (dir : Bytes) where
  abbrev upload_path : Bytes
  upload_path = child dir (codes "upload")

  moved_ok :
      (size : ℕ) (ext b : Bytes) (s : Store) (x : Result (Unit {0})) {n : ℕ}
      → content upload_path s ≡ some b
      → (moved sign o dir req size ext fresh_response s x).2 ≡ ok n
      → (size ≡ n)
        × (before : Store) × (request : Request) × (signing_request
              (input_of dir ext)
              (output_of dir ext)
              req.name
              req.url
            ≡ ok request)
        × (content (input_of dir ext) before ≡ some b)
        × Signs sign o before request (moved sign o dir req size ext fresh_response s x).1
  moved_ok size ext b s (err e) held h = cc
  moved_ok size ext b s (ok y) held h =
      let before = rename upload_path (input_of dir ext) s in
      let asked = signing_request (input_of dir ext) (output_of dir ext) req.name req.url in
      let (request, is_r, same, signs) = submit_ok sign o size before asked h in
      let there = content-rename upload_path (input_of dir ext) (input_of dir ext) b s held in
      (same, before, request, is_r, there ∙ rw (equal_self (input_of dir ext)), signs)

  named_ok :
      (b : Bytes) (s : Store) (x : Result Kind) {n : ℕ}
      → content upload_path s ≡ some b
      → (named u sign o dir req (length b) fresh_response s x).2 ≡ ok n
      → (length b ≡ n)
        × (kind : Kind) × (x ≡ ok kind)
        × (before : Store) × (request : Request) × (signing_request
              (input_of dir (safe_extension u req.filename kind))
              (output_of dir (safe_extension u req.filename kind))
              req.name
              req.url
            ≡ ok request)
        × (content (input_of dir (safe_extension u req.filename kind)) before ≡ some b)
        × Signs sign o before request (named u sign o dir req (length b) fresh_response s x).1
  named_ok b s (err e) held h = cc
  named_ok b s (ok kind) held h =
      let p = moved_ok (length b) (safe_extension u req.filename kind) b s o.renaming held h in
      (p.0, kind, refl, p.1, p.2, p.3, p.4, p.5)

  stat_ok :
      (x : Result (Unit {0})) (size : ℕ) (f : Bytes) {kind : Kind}
      → detect_kind (x >>= λ _. ok size) (file_reader f) ≡ ok kind
      → detect_kind (ok size) (file_reader f) ≡ ok kind
  unfolding detect_kind
  stat_ok (ok y) size f h = h
  stat_ok (err e) size f h = cc

  received_ok :
      (s : Store) (x : Bytes × Result (Unit {0})) {n : ℕ}
      → (x.1 ≡ ok tt
          → (length req.body.sent ≤ limit) × (req.body.broken ≡ none) × (x.0 ≡ req.body.sent))
      → (received u sign o dir req fresh_response s x).2 ≡ ok n
      → Served u sign limit o req dir n (received u sign o dir req fresh_response s x).1
  received_ok s (uploaded, err e) copied h = cc
  received_ok s (uploaded, ok y) copied h =
      let held = content-put upload_path upload_path uploaded s ∙ rw (equal_self upload_path) in
      let found =
        detect_kind (o.upload_stat >>= λ _. ok (length uploaded)) (file_reader uploaded) in
      let (same, kind, is_kind, before, request, is_r, there, signs) =
        named_ok uploaded (put upload_path uploaded s) found held h in
      let (fits, unbroken, whole) = copied refl in
      let (input, output, name, url) = signing_request_ok _ _ req.name req.url is_r in
      let (name_is, url_is) = signing_request-trimmed _ _ req.name req.url is_r in
      record {
        fits = fits;
        unbroken = unbroken;
        size_is = sym same ∙ ap length whole;
        kind = kind;
        detected =
            sym (ap (λ b. detect_kind (ok (length b)) (file_reader b)) whole)
            ∙ stat_ok o.upload_stat (length uploaded) uploaded is_kind;
        before = before;
        request = request;
        input_is = input;
        output_is = output;
        input_holds = ap (λ p. content p before) input ∙ there ∙ ap some whole;
        apart = λ k. input-ne-output dir _ (sym input ∙ k ∙ output);
        name_is = name_is;
        url_is = url_is;
        name_clean = name;
        url_clean = url;
        signing = signs;
      }

  in_dir_ok :
      (s : Store) (x : Result (Unit {0})) {n : ℕ}
      → (in_dir u sign limit o dir req fresh_response s x).2 ≡ ok n
      → Served u sign limit o req dir n (in_dir u sign limit o dir req fresh_response s x).1
  unfolding in_dir
  in_dir_ok s (err e) h = cc
  in_dir_ok s (ok y) h = received_ok s (copy_body limit req.body) (copy_body_ok limit req.body) h

-- Where `signUpload` succeeds with a size, it is the size of the client's file, which fits the
-- limit and of which nothing is missing; the backend got a request with the trimmed headers as
-- metadata, which are clean, whose input file holds just that file, of a kind that is signable, and
-- whose output is another path; it signed while it held the token; and the client got the output
-- file, whole, with its length (and status 200, if it is not empty).
pub sign_upload-Served :
    (u : Tables) (sign : Signer) (limit : ℕ) (o : Outcomes) (req : SignRequest) (s : Store)
    (dir : Bytes) (n : ℕ)
    → o.temp_dir ≡ ok dir
    → (sign_upload u sign limit o req fresh_response s).2 ≡ ok n
    → Served u sign limit o req dir n (sign_upload u sign limit o req fresh_response s).1
unfolding sign_upload
sign_upload-Served u sign limit o req s dir n is_dir done =
    subst
      (λ x.
        (in_temp u sign limit o req fresh_response s x).2 ≡ ok n
        → Served u sign limit o req dir n (in_temp u sign limit o req fresh_response s x).1)
      (sym is_dir) (in_dir_ok u sign limit o req dir s o.create) done
