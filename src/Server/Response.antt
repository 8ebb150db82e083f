-- ===== src/Server/Response.antt =====
-- What the handlers write: Go's `http.ResponseWriter` and `http.Error`.
use codesign.Common.{
  ℕ, ◌+◌, Bool, false, [], ◌∷◌, ◌++◌, Option, none, some, Bytes, length, ltb, if◌then◌else◌,
}

-- The status that is sent, once the header is; the declared length, if any; the body so far.
pub record Response : Type 0 where
  pub status : Option ℕ
  pub content_length : Option ℕ
  pub body : Bytes

abbrev pub fresh_response : Response
fresh_response = record { status = none; content_length = none; body = [] }

-- `WriteHeader` has no effect behind the first one.
abbrev pub write_header : ℕ → Response → Response
write_header status r = elim (r.status) [ none ↦ record r { status = some status } | some _ ↦ r ]

-- A write past the declared length is refused whole.
abbrev pub exceeds : Option ℕ → ℕ → Bool
exceeds none n = false
exceeds (some declared) n = ltb declared n

-- A write sends status 200 first, if no status is sent.
unfoldable pub write_body : Bytes → Response → Response
write_body b r =
    let sent = write_header 200 r in
    if exceeds r.content_length (length r.body + length b)
    then sent
    else record sent { body = r.body ++ b }

-- A declared length counts only before the header is sent.
abbrev pub declare_length : Option ℕ → Response → Response
declare_length n r = elim (r.status) [ none ↦ record r { content_length = n } | some _ ↦ r ]

-- `http.Error`.
unfoldable pub http_error : Bytes → ℕ → Response → Response
unfolding write_body
http_error message status r =
    write_body (message ++ (b'\n' ∷ [])) (write_header status (declare_length none r))
