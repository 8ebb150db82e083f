-- ===== src/Server/Upload/Success.antt =====
-- When `signUpload` does succeed.
use codesign.Common.{
  ℕ, ◌≤◌, ◌≡◌, ◌≢◌, refl, ◌∙◌, false, none, some, arith, Bytes, codes, length, equal_self, ltb, inl,
  inr,
}
use codesign.Common.Errors.{Result, ok, err, err-ne-ok}
use codesign.Common.Store.{Store, content, put, content-put, content-rename}
use codesign.Server.Detect.{file_reader, Kind, detect_kind}
use codesign.Server.Extension.{safe_extension}
use codesign.Server.Headers.Metadata.{IsClean, signing_request_cases}
use codesign.Server.Response.{Response}
use codesign.Server.Upload.{
  Signer, Body, Outcomes, SignRequest, granted, child, input_of, output_of, moved, copy_body,
  with_token, write_signed, answered, in_dir, sign_upload,
}
use codesign.Server.Upload.Served.{input-ne-output}
use codesign.Signer.{Request}
use codesign.Signer.Contract.{Leaves}
use codesign.Text.Fold.{Tables}
use codesign.Text.Space.{trim_space}

-- The backend signs every file that is there, to another path.
abbrev pub SignsAll : Signer → Type 0
SignsAll sign =
    (request : Request) (s : Store) (b : Bytes)
    → content request.input_path s ≡ some b
    → request.input_path ≢ request.output_path
    → Leaves request.output_path (sign request s)

-- Every call of the system succeeds, the token is granted, and the client takes the whole reply.
pub record AllGoes (o : Outcomes) (dir : Bytes) : Type 0 where
  pub is_dir : o.temp_dir ≡ ok dir
  pub creates : o.create ≡ ok tt
  pub stats : o.upload_stat ≡ ok tt
  pub renames : o.renaming ≡ ok tt
  pub has_turn : o.turn ≡ granted
  pub stats_output : o.output_stat ≡ ok tt
  pub delivers : o.delivery ≡ none

-- A request that deserves to be served: a whole file of this kind, within the limit, with clean
-- metadata.
pub record IsSignable (limit : ℕ) (req : SignRequest) (kind : Kind) : Type 0 where
  pub fits : length req.body.sent ≤ limit
  pub unbroken : req.body.broken ≡ none
  pub detected : detect_kind (ok (length req.body.sent)) (file_reader req.body.sent) ≡ ok kind
  pub name_clean : IsClean (trim_space req.name)
  pub url_clean : IsClean (trim_space req.url)

copy_body_whole :
    (limit : ℕ) (body : Body)
    → length body.sent ≤ limit
    → body.broken ≡ none
    → copy_body limit body ≡ (body.sent, ok tt)
unfolding copy_body
copy_body_whole limit body fits unbroken = rw (within, unbroken) refl
  where
    within : ltb limit (length body.sent) ≡ false
    within = ground (arith, fits)

module _ (u : Tables) (sign : Signer) (limit : ℕ) (o : Outcomes) (req : SignRequest) (dir : Bytes)
    (signs : SignsAll sign) (goes : AllGoes o dir) (kind : Kind) (good : IsSignable limit req kind)
    (r : Response) where
  abbrev type_of : Bytes
  type_of = safe_extension u req.filename kind

  answered_ok :
      (output : Bytes) (p : Store × Result (Unit {0}))
      → Leaves output p
      → (answered o (length req.body.sent) output r p).2 ≡ ok (length req.body.sent)
  unfolding write_signed
  answered_ok output (s, ok _) leaves = rw (leaves.left, goes.stats_output, goes.delivers) refl
  answered_ok output (s, err e) leaves = absurd (err-ne-ok leaves.done)

  moved_succeeds :
      (s : Store)
      → content (child dir (codes "upload")) s ≡ some req.body.sent
      → (moved sign o dir req (length req.body.sent) type_of r s (ok tt)).2
        ≡ ok (length req.body.sent)
  unfolding with_token write_signed
  moved_succeeds s held =
      elim (signing_request_cases (input_of dir type_of) (output_of dir type_of) req.name req.url) [
        | inr (dirty, e) ↦ absurd (dirty (good.name_clean, good.url_clean))
        | inl (name, url, e) ↦
            rw (e, goes.has_turn)
              (answered_ok (output_of dir type_of) _ (
                signs _ _ req.body.sent
                  (content-rename (child dir (codes "upload")) (input_of dir type_of)
                      (input_of dir type_of) req.body.sent s held
                    ∙ rw (equal_self (input_of dir type_of)) refl)
                  (input-ne-output dir type_of)))
      ]

  pub sign_upload_succeeds :
      (s : Store) → (sign_upload u sign limit o req r s).2 ≡ ok (length req.body.sent)
  unfolding sign_upload in_dir write_signed
  sign_upload_succeeds s =
      rw
        (
          goes.is_dir,
          goes.creates,
          copy_body_whole limit req.body good.fits good.unbroken,
          goes.stats,
          good.detected,
          goes.renames,
        )
        (moved_succeeds (put (child dir (codes "upload")) req.body.sent s) (
          content-put (child dir (codes "upload")) (child dir (codes "upload")) req.body.sent s
          ∙ rw (equal_self (child dir (codes "upload"))) refl))
