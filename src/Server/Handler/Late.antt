-- ===== src/Server/Handler/Late.antt =====
-- A failure that comes when the response has begun.
use codesign.Common.{
  ℕ, ◌+◌, ◌≡◌, refl, Bool, true, false, [], ◌∷◌, ◌++◌, Option, some, Bytes, length, if◌then◌else◌,
}
use codesign.Common.Errors.{Error, cause}
use codesign.Server.Handler.{sign_error_reply, reply_sign_error}
use codesign.Server.Response.{Response, exceeds, write_body, http_error}

abbrev error_line : Error → Bytes
error_line e = (sign_error_reply (cause e)).1 ++ (b'\n' ∷ [])

-- The header is out.
abbrev pub begun : ℕ → Option ℕ → Bytes → Response
begun status n body = record { status = some status; content_length = n; body = body }

begun_if :
    (status : ℕ) (n : Option ℕ) (a b : Bytes) (x : Bool)
    → (if x then begun status n a else begun status n b) ≡ begun status n (if x then a else b)
begun_if status n a b true = refl
begun_if status n a b false = refl

-- Once a status has been sent, `replySignError` can change neither the status nor the declared
-- length: its message goes behind the bytes of the signed file that are out already, unless the
-- declared length leaves no room for it.
reply_sign_error-begun :
    (e : Error) (status : ℕ) (n : Option ℕ) (body : Bytes)
    → reply_sign_error e (begun status n body)
      ≡ begun status n
          (if exceeds n (length body + length (error_line e)) then body else body ++ error_line e)
unfolding reply_sign_error http_error write_body
reply_sign_error-begun e status n body =
    begun_if status n body (body ++ error_line e) (exceeds n (length body + length (error_line e)))
