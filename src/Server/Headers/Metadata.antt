-- ===== src/Server/Headers/Metadata.antt =====
-- What the metadata check lets through to the signing tool.
use codesign.Common.{
  ◌≤◌, ◌≡◌, refl, sym, ap, ◌∙◌, Bytes, false, ◌||◌, inl, inr, ◌⊎◌, [], ◌∷◌, arith, length, ltb, any,
  Bool-cases,
}
use codesign.Common.Errors.{ok_injective, ok, err, sentinel, bad_metadata}
use codesign.Signer.{Request}
use codesign.Text.Space.{trim_space}
use codesign.Server.Headers.{
  max_metadata, is_unsafe_byte, checked_metadata, sanitize_metadata, signing_request,
}

-- Short enough, and free of NUL, CR and LF.
pub record IsClean (value : Bytes) : Type 0 where
  pub fits : length value ≤ max_metadata
  pub safe : any is_unsafe_byte value ≡ false

checked_cases :
    (v : Bytes)
    → (IsClean v × (checked_metadata v ≡ ok v))
      ⊎ ((¬ IsClean v) × (checked_metadata v ≡ err (sentinel bad_metadata)))
unfolding any
checked_cases [] = inl (record { fits = omega arith; safe = refl }, refl)
checked_cases (c ∷ s) =
    elim (Bool-cases (ltb max_metadata (length (c ∷ s)) || any is_unsafe_byte (c ∷ s))) [
      | inl bad ↦ inr (λ k. ground arith, rw bad)
      | inr good ↦ inl (record { fits = ground arith; safe = ground arith }, rw good)
    ]

-- `sanitizeMetadata` returns the trimmed header when that has at most 256 bytes, none of them NUL,
-- CR or LF, and is the error `errBadMetadata` otherwise.
sanitize_metadata_cases :
    (v : Bytes)
    → (IsClean (trim_space v) × (sanitize_metadata v ≡ ok (trim_space v)))
      ⊎ ((¬ IsClean (trim_space v)) × (sanitize_metadata v ≡ err (sentinel bad_metadata)))
unfolding sanitize_metadata
sanitize_metadata_cases v = checked_cases (trim_space v)

-- The backend gets the two paths of the server and the two trimmed headers, which are clean, or
-- one of the headers is not clean and the request is refused with `errBadMetadata`.
pub signing_request_cases :
    (input output name_header url_header : Bytes)
    → (IsClean (trim_space name_header)
        × IsClean (trim_space url_header)
        × (signing_request input output name_header url_header
            ≡ ok (record {
              input_path = input;
              output_path = output;
              name = trim_space name_header;
              url = trim_space url_header;
            })))
      ⊎ ((¬ (IsClean (trim_space name_header) × IsClean (trim_space url_header)))
          × (signing_request input output name_header url_header ≡ err (sentinel bad_metadata)))
unfolding signing_request
signing_request_cases input output n u = elim (sanitize_metadata_cases n) [
  | inr (dirty, e) ↦ inr (λ both. dirty both.0, rw e)
  | inl (clean, e) ↦ elim (sanitize_metadata_cases u) [
    | inr (dirty, e') ↦ inr (λ both. dirty both.1, rw (e, e'))
    | inl (clean', e') ↦ inl (clean, clean', rw (e, e'))
  ]
]

-- A request that is made has the server's paths and clean metadata.
pub signing_request_ok :
    (input output n u : Bytes) {request : Request}
    → signing_request input output n u ≡ ok request
    → (request.input_path ≡ input)
      × (request.output_path ≡ output)
      × IsClean request.name
      × IsClean request.url
signing_request_ok input output n u h = elim (signing_request_cases input output n u) [
  | inr (dirty, e) ↦ cc
  | inl (name, url, e) ↦
      let same = ok_injective (sym e ∙ h) in
      (
        ap (λ r. r.input_path) (sym same),
        ap (λ r. r.output_path) (sym same),
        rw (ap (λ r. r.name) (sym same)) name,
        rw (ap (λ r. r.url) (sym same)) url,
      )
]

-- The metadata of a request that is made are the trimmed headers.
pub signing_request-trimmed :
    (input output n u : Bytes) {request : Request}
    → signing_request input output n u ≡ ok request
    → (request.name ≡ trim_space n) × (request.url ≡ trim_space u)
signing_request-trimmed input output n u h = elim (signing_request_cases input output n u) [
  | inr (dirty, e) ↦ cc
  | inl (name, url, e) ↦
      let same = ok_injective (sym e ∙ h) in
      (ap (λ r. r.name) (sym same), ap (λ r. r.url) (sym same))
]
