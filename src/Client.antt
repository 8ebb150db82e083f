-- ===== src/Client.antt =====
-- client.go: `Sign` and what it calls, with the names of protocol.go. What the network and the
-- context do in one attempt is an argument, `Attempt`.
pub mod Retry
pub mod Metadata
pub mod Replace
pub mod New
pub mod Token
pub mod Wire
use codesign.Common.{
  ℕ, zero, suc, ◌+◌, ◌*◌, Bool, true, false, ◌&&◌, ◌||◌, not, List, [], ◌∷◌, ◌++◌, Option, none,
  some, Bytes, codes, length, take, ltb, ◌==◌, any, if◌then◌else◌,
}
use codesign.Common.Errors.{
  Error, Result, ok, err, wrap, cause, sentinel, sign_failed, invalid_header, Fault, fault,
  certificate_verification, record_header, alert, unknown_authority, hostname, certificate_invalid,
  ◌>>=◌,
}
use codesign.Text.Space.{trim_space}
use codesign.Text.Utf8.{runes}

abbrev pub sign_path : Bytes
sign_path = codes "/v1/sign"

abbrev pub header_filename : Bytes
header_filename = codes "X-Codesign-Filename"

abbrev pub header_name : Bytes
header_name = codes "X-Codesign-Name"

abbrev pub header_url : Bytes
header_url = codes "X-Codesign-Url"

-- What `Sign` reads of the configuration, as `New` leaves it.
pub record Config : Type 0 where
  pub url : Bytes
  pub token : Bytes
  pub retries : ℕ

pub record SignOptions : Type 0 where
  pub name : Bytes
  pub url : Bytes

pub record Post : Type 0 where
  pub target : Bytes
  pub headers : List (Bytes × Bytes)
  pub file : Bytes

-- How `http.Client.Do` ends: an error, or a status with its line, the body, and the error that ends
-- it early.
pub data Exchange : Type 0 where
  unsent : Error → Exchange
  replied : ℕ → Bytes → Bytes → Option Error → Exchange

-- The wait before the attempt, if it is not the first, the making of the request, and the exchange.
pub record Attempt : Type 0 where
  pub waiting : Result (Unit {0})
  pub creating : Result (Unit {0})
  pub exchange : Post → Exchange

abbrev pub is_control : ℕ → Bool
is_control char = (ltb char 0x20 && not (char == b'\t')) || (char == 0x7F)

unfoldable pub valid_header_value : Bytes → Bool
valid_header_value value = not (any is_control (runes value))

abbrev check_header : Bytes → Bytes → Result (Unit {0})
check_header name value =
    if valid_header_value value then ok tt else err (wrap name (sentinel invalid_header))

unfoldable pub validate_headers : Bytes → SignOptions → Result (Unit {0})
validate_headers filename opts =
    check_header header_filename filename
    >>= (λ _. check_header header_name opts.name >>= λ _. check_header header_url opts.url)

unfoldable pub is_permanent_transport_error : Error → Bool
is_permanent_transport_error (wrap _ e) = is_permanent_transport_error e
is_permanent_transport_error (sentinel _) = false
is_permanent_transport_error (fault certificate_verification) = true
is_permanent_transport_error (fault record_header) = true
is_permanent_transport_error (fault alert) = true
is_permanent_transport_error (fault unknown_authority) = true
is_permanent_transport_error (fault hostname) = true
is_permanent_transport_error (fault certificate_invalid) = true
is_permanent_transport_error (fault _) = false

abbrev max_error_body : ℕ
max_error_body = 4 * 1024

unfoldable pub read_error_body : Bytes → Bytes
read_error_body body =
    let read = take (max_error_body + 1) body in
    trim_space (if ltb max_error_body (length read) then take max_error_body read else read)

-- A header that is set only where there is something to say.
abbrev pub optional : Bytes → Bytes → Bytes → List (Bytes × Bytes)
optional name prefix [] = []
optional name prefix (c ∷ value) = (name, prefix ++ (c ∷ value)) ∷ []

unfoldable pub sign_post : Config → Bytes → Bytes → SignOptions → Post
sign_post config filename file opts = record {
  target = config.url ++ sign_path;
  headers =
      (codes "Content-Type", codes "application/octet-stream")
      ∷ (header_filename, filename)
      ∷ (optional header_name [] opts.name
          ++ (optional header_url [] opts.url
              ++ optional (codes "Authorization") (codes "Bearer ") config.token));
  file = file;
}

abbrev pub is_gateway : ℕ → Bool
is_gateway status = (status == 502) || (status == 503) || (status == 504)

abbrev pub read_signed : Bytes → Option Error → Result Bytes × Bool
read_signed body none = (ok body, false)
read_signed body (some e) = (err (wrap (codes "reading response") e), true)

-- What `signOnce` makes of an exchange: the result, and whether to try again.
unfoldable pub judge : Exchange → Result Bytes × Bool
judge (unsent e) = (err (wrap (codes "posting file") e), not (is_permanent_transport_error e))
judge (replied status line body broken) = if status == 200 then read_signed body broken else (
  err (wrap (line ++ (codes ": " ++ read_error_body body)) (sentinel sign_failed)),
  is_gateway status,
)

abbrev pub once_created : Result (Unit {0}) → Exchange → Result Bytes × Bool
once_created (err e) x = (err (wrap (codes "creating request") e), false)
once_created (ok _) x = judge x

unfoldable pub sign_once : Post → Attempt → Result Bytes × Bool
sign_once post a = once_created a.creating (a.exchange post)

-- The loop of `Sign` from one attempt on, with so many retries left. `more` is what the next
-- attempts come to.
abbrev pub after_wait : Result (Unit {0}) → Result Bytes → Result Bytes
after_wait (err e) more = err (wrap (codes "waiting to retry") e)
after_wait (ok _) more = more

abbrev pub after_attempt : Result Bytes × Bool → Result Bytes → Result Bytes
after_attempt (ok signed, _) more = ok signed
after_attempt (err e, false) more = err e
after_attempt (err e, true) more = more

abbrev pub last_attempt : Result Bytes × Bool → Result Bytes
last_attempt p = p.0

unfoldable pub attempts : Post → (ℕ → Attempt) → ℕ → ℕ → Result Bytes
attempts post web zero k = last_attempt (sign_once post (web k))
attempts post web (suc left) k =
    let more = attempts post web left (suc k) in
    after_attempt (sign_once post (web k)) (after_wait (web (suc k)).waiting more)

unfoldable pub sign : Config → (ℕ → Attempt) → Bytes → Bytes → SignOptions → Result Bytes
sign config web filename file opts = validate_headers filename opts >>= λ _.
    attempts (sign_post config filename file opts) web config.retries 0
