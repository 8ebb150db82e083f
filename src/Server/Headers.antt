-- ===== src/Server/Headers.antt =====
-- The request headers that the server reads: `bearerToken`, `sanitizeMetadata` and `signingRequest`
-- of server/server.go.
pub mod Bearer
pub mod Metadata
use codesign.Common.{
  ℕ, Bool, not, ◌||◌, [], ◌∷◌, Option, none, some, Bytes, codes, length, ltb, any, ◌==◌, is_empty,
  if◌then◌else◌,
}
use codesign.Common.Errors.{Error, Result, ok, err, sentinel, bad_metadata, ◌>>=◌}
use codesign.Signer.{Request}
use codesign.Text.Fold.{Tables, equal_fold}
use codesign.Text.Space.{cut, trim_space}

-- The bearer token behind the scheme, if any.
abbrev trimmed_token : Bytes → Option Bytes
trimmed_token token = if is_empty token then none else some token

abbrev scheme_token : Tables → Option (Bytes × Bytes) → Option Bytes
scheme_token u none = none
scheme_token u (some (scheme, token)) =
    if not (equal_fold u scheme (codes "Bearer")) then none else trimmed_token (trim_space token)

unfoldable pub bearer_token : Tables → Bytes → Option Bytes
bearer_token u header = scheme_token u (cut b' ' header)

abbrev pub max_metadata : ℕ
max_metadata = 256

-- NUL, CR and LF, which no argument of the signing tool may hold.
abbrev pub is_unsafe_byte : ℕ → Bool
is_unsafe_byte c = c == 0 || c == b'\r' || c == b'\n'

abbrev checked_metadata : Bytes → Result Bytes
checked_metadata value =
    if is_empty value
    then ok []
    else if ltb max_metadata (length value) || any is_unsafe_byte value
    then err (sentinel bad_metadata)
    else ok value

unfoldable pub sanitize_metadata : Bytes → Result Bytes
sanitize_metadata value = checked_metadata (trim_space value)

-- The two metadata headers of a request, and the request for the backend.
unfoldable pub signing_request : Bytes → Bytes → Bytes → Bytes → Result Request
signing_request input output name_header url_header = do
  name ← sanitize_metadata name_header
  page ← sanitize_metadata url_header
  ok (record { input_path = input; output_path = output; name = name; url = page })
