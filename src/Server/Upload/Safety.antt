-- ===== src/Server/Upload/Safety.antt =====
-- A sign request leaves nothing in the work directory, and touches nothing outside its own one.
use codesign.Common.{
  ℕ, ◌≡◌, ◌⊎◌, Bool, not, ◌&&◌, refl, ap, ◌∙◌, true, false, ◌++◌, none, arith, Bytes, codes, length,
  equal_iff, if◌then◌else◌, inl, inr, Bool-cases, Option-cases,
}
use codesign.Common.Errors.{Result, ok, err, ◌>>=◌}
use codesign.Common.Store.{
  Store, content, put, rename, is_below, is_below-append, content-put, content-remove_all,
  content-rename, rename-none,
}
use codesign.Server.Detect.{file_reader, Kind, detect_kind}
use codesign.Server.Extension.{safe_extension}
use codesign.Server.Headers.{signing_request}
use codesign.Server.Headers.Metadata.{signing_request_ok}
use codesign.Server.Response.{Response}
use codesign.Server.Upload.{
  Signer, Turn, granted, canceled, granted_late, Outcomes, SignRequest, Outcome, with_token, child,
  answered, submit, moved, named, received, in_dir, in_temp, input_of, output_of, copy_body,
  cleaned, sign_upload,
}
use codesign.Signer.{Request}
use codesign.Text.Fold.{Tables}

-- Where its output goes into this directory, the backend changes no file outside.
abbrev pub StaysIn : Bytes → Signer → Type 0
StaysIn dir sign =
    (request : Request) (s : Store) (q : Bytes)
    → is_below dir request.output_path ≡ true
    → is_below dir q ≡ false
    → content q (sign request s).0 ≡ content q s

module _ (u : Tables) (sign : Signer) (o : Outcomes) (dir : Bytes) (stays : StaysIn dir sign)
    (q : Bytes) (outside : is_below dir q ≡ false) where
  put-child : (name b : Bytes) (s : Store) → content q (put (child dir name) b s) ≡ content q s
  put-child name b s = ground (
    arith,
    content-put (child dir name) q b s,
    is_below-append dir name,
    equal_iff (child dir name) q,
  )

  rename-child :
      (a b : Bytes) (s : Store) → content q (rename (child dir a) (child dir b) s) ≡ content q s
  rename-child a b s = elim (Option-cases (content (child dir a) s)) [
    | inl missing ↦ ap (content q) (rename-none (child dir a) (child dir b) s missing)
    | inr (c, there) ↦ ground (
      arith,
      content-rename (child dir a) (child dir b) q c s there,
      is_below-append dir a,
      is_below-append dir b,
      equal_iff (child dir a) q,
      equal_iff (child dir b) q,
    )
  ]

  answered_keeps :
      (size : ℕ) (output : Bytes) (r : Response) (p : Store × Result (Unit {0}))
      → content q (answered o size output r p).0 ≡ content q p.0
  answered_keeps size output r (s, err e) = refl
  answered_keeps size output r (s, ok _) = refl

  with_token_keeps :
      (t : Turn) (request : Request) (s : Store)
      → is_below dir request.output_path ≡ true
      → content q (with_token t (sign request) s).0 ≡ content q s
  unfolding with_token
  with_token_keeps granted request s inside = stays request s q inside outside
  with_token_keeps (canceled e) request s inside = refl
  with_token_keeps (granted_late e) request s inside = refl

  submit_keeps :
      (size : ℕ) (r : Response) (s : Store) (x : Result Request)
      → ((request : Request) → x ≡ ok request → is_below dir request.output_path ≡ true)
      → content q (submit sign o size r s x).0 ≡ content q s
  submit_keeps size r s (err e) below = refl
  submit_keeps size r s (ok request) below =
      answered_keeps size request.output_path r _
      ∙ with_token_keeps o.turn request s (below request refl)

  moved_keeps :
      (req : SignRequest) (size : ℕ) (ext : Bytes) (r : Response) (s : Store)
      (x : Result (Unit {0}))
      → content q (moved sign o dir req size ext r s x).0 ≡ content q s
  moved_keeps req size ext r s (err e) = refl
  moved_keeps req size ext r s (ok _) =
      submit_keeps size r _
        (signing_request (input_of dir ext) (output_of dir ext) req.name req.url)
        (λ request made.
          ap (is_below dir)
            (signing_request_ok (input_of dir ext) (output_of dir ext) req.name req.url made).1
          ∙ is_below-append dir (codes "output" ++ ext))
      ∙ rename-child (codes "upload") (codes "input" ++ ext) s

  named_keeps :
      (req : SignRequest) (size : ℕ) (r : Response) (s : Store) (x : Result Kind)
      → content q (named u sign o dir req size r s x).0 ≡ content q s
  named_keeps req size r s (err e) = refl
  named_keeps req size r s (ok kind) =
      moved_keeps req size (safe_extension u req.filename kind) r s o.renaming

  received_keeps :
      (req : SignRequest) (r : Response) (s : Store) (x : Bytes × Result (Unit {0}))
      → content q (received u sign o dir req r s x).0 ≡ content q s
  received_keeps req r s (uploaded, err e) = put-child (codes "upload") uploaded s
  received_keeps req r s (uploaded, ok _) =
      named_keeps req (length uploaded) r _
        (detect_kind (o.upload_stat >>= λ _. ok (length uploaded)) (file_reader uploaded))
      ∙ put-child (codes "upload") uploaded s

  in_dir_keeps :
      (limit : ℕ) (req : SignRequest) (r : Response) (s : Store) (x : Result (Unit {0}))
      → content q (in_dir u sign limit o dir req r s x).0 ≡ content q s
  unfolding in_dir
  in_dir_keeps limit req r s (err e) = refl
  in_dir_keeps limit req r s (ok _) = received_keeps req r s (copy_body limit req.body)

content-cleaned :
    (stays : Bytes → Bool) (dir q : Bytes) (p : Outcome)
    → content q (cleaned stays dir p).0
      ≡ (if is_below dir q && not (stays q) then none else content q p.0)
content-cleaned stays dir q (s, r, x) = content-remove_all stays dir q s

-- A file of the directory that `os.RemoveAll` could not remove.
abbrev pub LeftBehind : Bytes → Outcomes → Bytes → Type 0
LeftBehind dir o q = (is_below dir q ≡ true) × (o.stays q ≡ true)

-- Whatever fails on the way, once `signUpload` returns every file outside of the directory that it was
-- given is as it was, if the backend keeps to the directory of its output, and in the directory no
-- file stands but what the removal of the directory, whose error is ignored, has failed to remove.
pub sign_upload-content :
    (u : Tables) (sign : Signer) (limit : ℕ) (o : Outcomes) (req : SignRequest) (r : Response)
    (s : Store) (dir q : Bytes)
    → o.temp_dir ≡ ok dir
    → StaysIn dir sign
    → LeftBehind dir o q
      ⊎ (content q (sign_upload u sign limit o req r s).0
          ≡ (if is_below dir q then none else content q s))
unfolding sign_upload
sign_upload-content u sign limit o req r s dir q is_dir stays = elim (Bool-cases (is_below dir q)) [
  | inl inside ↦ elim (Bool-cases (o.stays q)) [
    | inl left ↦ inl (inside, left)
    | inr goes ↦ inr (cleared ∙ rw (inside, goes) refl)
  ]
  | inr outside ↦
      inr (cleared ∙ rw outside (in_dir_keeps u sign o dir stays q outside limit req r s o.create))
]
  where
    cleared : content q (in_temp u sign limit o req r s o.temp_dir).0 ≡ (
        if is_below dir q && not (o.stays q)
        then none
        else content q (in_dir u sign limit o dir req r s o.create).0)
    cleared =
        ap (λ x. content q (in_temp u sign limit o req r s x).0) is_dir
        ∙ content-cleaned o.stays dir q (in_dir u sign limit o dir req r s o.create)
