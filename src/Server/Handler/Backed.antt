-- ===== src/Server/Handler/Backed.antt =====
-- The server with a backend that keeps the promise of a `Signer`.
use codesign.Common.{◌≡◌, sym, ap, ◌∙◌, Bytes, equal_iff, arith}
use codesign.Common.Errors.{ok, err-ne-ok}
use codesign.Common.Store.{Store}
use codesign.Signer.{Request, check}
use codesign.Signer.Contract.{Kept, refused, failed, signed, Kept-beside, Backend}
use codesign.Server.Upload.Safety.{StaysIn}

-- A backend changes no file outside the directory of its output.
pub Backend-StaysIn : (backend : Backend) (dir : Bytes) → StaysIn dir backend.sign
Backend-StaysIn backend dir request s q inside outside =
    Kept-beside (backend.made request s) (backend.same_file request s) request s
      (backend.sign request s) q (backend.keeps request s)
      (ground (arith, inside, outside, equal_iff request.output_path q))

-- A request that is signed has passed the check.
pub signs-checked :
    (backend : Backend) (request : Request) (s : Store)
    → (backend.sign request s).1 ≡ ok tt
    → check (backend.same_file request s) request ≡ ok tt
signs-checked backend request s done = passed (backend.keeps request s)
  where
    passed :
        Kept
          (backend.made request s)
          (λ q. ⊥)
          (backend.same_file request s)
          request
          s
          (backend.sign request s)
        → check (backend.same_file request s) request ≡ ok tt
    passed (refused why e h is_p) = absurd (err-ne-ok (sym (ap (λ p. p.1) is_p) ∙ done))
    passed (failed e h is_err same) = h
    passed (signed b h is_ok made all) = h
