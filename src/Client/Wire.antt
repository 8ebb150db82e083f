-- ===== src/Client/Wire.antt =====
-- A request of client.go as it reaches server/server.go. The HTTP libraries carry the body as it is
-- set and the header values without the white space around them; the names of the headers are in
-- their canonical form on both sides.
pub mod Delivered
use codesign.Common.{
  ℕ, ◌≡◌, refl, ap, ◌∙◌, Bool, ◌==◌, ◌||◌, false, true, List, [], ◌∷◌, ◌++◌, Option, none, some,
  Bytes, codes, equal, equal_self, is_empty, if◌then◌else◌,
}
use mathlib.Core.List.{reverse}
use codesign.Common.Errors.{ok}
use codesign.Client.{
  Config, SignOptions, Post, sign_post, sign_path, header_filename, header_name, header_url,
  optional,
}
use codesign.Server.Auth.{Caller}
use codesign.Server.Headers.{bearer_token, signing_request}
use codesign.Server.Headers.Metadata.{IsClean}
use codesign.Server.Upload.{SignRequest}
use codesign.Text.Fold.{Tables, equal_fold}
use codesign.Text.Utf8.{runes_skip, decode_rune}
use codesign.Text.Space.{cut, trim_left, trim_left_rev, trim_space}

-- `http.Header.Get`.
unfoldable pub header_get : Bytes → List (Bytes × Bytes) → Bytes
header_get name [] = []
header_get name ((key, value) ∷ headers) = if equal key name then value else header_get name headers

-- `textproto.TrimString`, which net/http applies to a value that it sends or reads.
abbrev pub is_wire_space : ℕ → Bool
is_wire_space c = c == b' ' || c == b'\t' || c == b'\n' || c == b'\r'

unfoldable pub skip_wire_space : Bytes → Bytes
skip_wire_space [] = []
skip_wire_space (c ∷ value) = if is_wire_space c then skip_wire_space value else c ∷ value

unfoldable pub wire_value : Bytes → Bytes
unfolding skip_wire_space
wire_value value = reverse (skip_wire_space (reverse (skip_wire_space value)))

-- What `handleSign` reads of a request.
unfoldable pub caller_of : Bytes → Post → Caller
caller_of remote_addr post = record {
  remote_addr = remote_addr;
  authorization = wire_value (header_get (codes "Authorization") post.headers);
}

unfoldable pub request_of : Post → SignRequest
request_of post = record {
  body = record { sent = post.file; broken = none };
  filename = wire_value (header_get header_filename post.headers);
  name = wire_value (header_get header_name post.headers);
  url = wire_value (header_get header_url post.headers);
}

-- A header of another name is passed over.
get-optional_other :
    (name key prefix value : Bytes) (headers : List (Bytes × Bytes))
    → equal key name ≡ false
    → header_get name (optional key prefix value ++ headers) ≡ header_get name headers
unfolding header_get
get-optional_other name key prefix [] headers other = refl
get-optional_other name key prefix (c ∷ value) headers other = rw other refl

get-absent :
    (name key prefix value : Bytes)
    → equal key name ≡ false
    → header_get name (optional key prefix value) ≡ []
unfolding header_get
get-absent name key prefix [] other = refl
get-absent name key prefix (c ∷ value) other = rw other refl

get-optional :
    (name : Bytes) (value : Bytes) (headers : List (Bytes × Bytes))
    → header_get name headers ≡ []
    → header_get name (optional name [] value ++ headers) ≡ value
unfolding header_get
get-optional name [] headers absent = absent
get-optional name (c ∷ value) headers absent = rw (equal_self name) refl

get_authorization :
    (token : Bytes)
    → header_get (codes "Authorization") (optional (codes "Authorization") (codes "Bearer ") token)
      ≡ (if is_empty token then [] else codes "Bearer " ++ token)
unfolding header_get equal
get_authorization [] = refl
get_authorization (c ∷ token) = refl

bearer_read :
    (u : Tables) (token : Bytes)
    → bearer_token u (if is_empty token then [] else codes "Bearer " ++ token)
      ≡ (if is_empty (trim_space token) then none else some (trim_space token))
unfolding bearer_token cut equal_fold runes_skip decode_rune equal trim_space trim_left
    trim_left_rev
bearer_read u [] = refl
bearer_read u (c ∷ token) = refl

abbrev authorization : Config → List (Bytes × Bytes)
authorization config = optional (codes "Authorization") (codes "Bearer ") config.token

abbrev page_and_token : Config → SignOptions → List (Bytes × Bytes)
page_and_token config opts = optional header_url [] opts.url ++ authorization config

-- No white space is at the end of the token.
abbrev pub IsPlainToken : Bytes → Type 0
IsPlainToken [] = Unit {0}
IsPlainToken (c ∷ token) =
    wire_value (codes "Bearer " ++ (c ∷ token)) ≡ codes "Bearer " ++ (c ∷ token)

plain_authorization :
    (token : Bytes)
    → IsPlainToken token
    → wire_value (if is_empty token then [] else codes "Bearer " ++ token)
      ≡ (if is_empty token then [] else codes "Bearer " ++ token)
unfolding wire_value
plain_authorization [] plain = refl
plain_authorization (c ∷ token) plain = plain

-- The server reads what the client has set, without white space around it, and the token that the client has, if it is not blank.
pub record Reads (u : Tables) (config : Config) (filename file : Bytes) (opts : SignOptions)
    (remote_addr : Bytes) (post : Post) : Type 0 where
  pub same_file : (request_of post).body.sent ≡ file
  pub same_filename : (request_of post).filename ≡ wire_value filename
  pub same_name : (request_of post).name ≡ wire_value opts.name
  pub same_url : (request_of post).url ≡ wire_value opts.url
  pub same_token :
      bearer_token u (caller_of remote_addr post).authorization
      ≡ (if is_empty (trim_space config.token) then none else some (trim_space config.token))

pub sign_post-Reads :
    (u : Tables) (config : Config) (filename file : Bytes) (opts : SignOptions)
    (remote_addr : Bytes)
    → IsPlainToken config.token
    → Reads u config filename file opts remote_addr (sign_post config filename file opts)
unfolding sign_post request_of caller_of header_get equal
sign_post-Reads u config filename file opts remote_addr plain = record {
  same_file = refl;
  same_filename = refl;
  same_name = ap wire_value (
      get-optional header_name opts.name (page_and_token config opts) (
        get-optional_other header_name header_url [] opts.url (authorization config) refl
        ∙ get-absent header_name (codes "Authorization") (codes "Bearer ") config.token refl));
  same_url = ap wire_value (
      get-optional_other header_url header_name [] opts.name (page_and_token config opts) refl
      ∙ get-optional header_url opts.url (authorization config)
          (get-absent header_url (codes "Authorization") (codes "Bearer ") config.token refl));
  same_token =
      ap (λ x. bearer_token u (wire_value x))
        (get-optional_other (codes "Authorization") header_name [] opts.name
            (page_and_token config opts) refl
          ∙ get-optional_other (codes "Authorization") header_url [] opts.url (authorization config)
              refl
          ∙ get_authorization config.token)
      ∙ ap (bearer_token u) (plain_authorization config.token plain)
      ∙ bearer_read u config.token;
}
