-- ===== src/Signer/Contract.antt =====
-- What signer/signer.go promises of a `Signer`, and what backends/backends.go adds: the output only
-- appears after a successful sign.
use codesign.Common.{
  ◌≡◌, ◌⊎◌, inl, inr, refl, ap, ◌∙◌, Bool, false, some, Bytes, equal, if◌then◌else◌,
}
use codesign.Common.Errors.{Error, Result, ok, err}
use codesign.Common.Store.{Store, content}
use codesign.Signer.{Request, check}

-- The abstract signer: it refuses what `Check` refuses, it fails and leaves every file as it was, or
-- the signed file appears at the output path, and nothing else is changed. `Made` says what the
-- signed file is, and `Left` which files of its own it may leave behind.
pub data Kept (Made : Bytes → Type 0) (Left : Bytes → Type 0) (same_file : Bool) (req : Request)
    (s : Store) (p : Store × Result (Unit {0})) : Type 0 where
  refused :
      (why e : Error)
      → check same_file req ≡ err why
      → p ≡ (s, err e)
      → Kept Made Left same_file req s p
  failed :
      (e : Error)
      → check same_file req ≡ ok tt
      → p.1 ≡ err e
      → ((q : Bytes) → Left q ⊎ (content q p.0 ≡ content q s))
      → Kept Made Left same_file req s p
  signed :
      (b : Bytes)
      → check same_file req ≡ ok tt
      → p.1 ≡ ok tt
      → Made b
      → ((q : Bytes)
          → Left q ⊎ (content q p.0 ≡ (if equal req.output_path q then some b else content q s)))
      → Kept Made Left same_file req s p

-- A call that has succeeded and left a file at the path.
pub record Leaves (path : Bytes) (p : Store × Result (Unit {0})) : Type 0 where
  pub done : p.1 ≡ ok tt
  pub file : Bytes
  pub left : content path p.0 ≡ some file

-- A backend: what `os.SameFile` says of a request's paths, how it signs, and that it keeps the
-- promise and leaves no file behind.
pub record Backend : Type 1 where
  pub same_file : Request → Store → Bool
  pub sign : Request → Store → Store × Result (Unit {0})
  pub made : Request → Store → Bytes → Type 0
  pub keeps :
      (req : Request) (s : Store) → Kept (made req s) (λ q. ⊥) (same_file req s) req s (sign req s)

module _ (Made : Bytes → Type 0) (same_file : Bool) (req : Request) (s : Store)
    (p : Store × Result (Unit {0})) where
  -- A backend changes no file but the output.
  pub Kept-beside :
      (q : Bytes)
      → Kept Made (λ q. ⊥) same_file req s p
      → equal req.output_path q ≡ false
      → content q p.0 ≡ content q s
  Kept-beside q (refused why e h is_p) other = ap (λ x. content q x.0) is_p
  Kept-beside q (failed e h is_err same) other = elim (same q) [
    | inl nothing ↦ absurd nothing
    | inr is ↦ is
  ]
  Kept-beside q (signed b h is_ok made all) other = elim (all q) [
    | inl nothing ↦ absurd nothing
    | inr is ↦ is ∙ rw other refl
  ]

  -- Where nothing of its own can be left, nothing is left.
  pub Kept-tidy :
      (Left : Bytes → Type 0)
      → ((q : Bytes) → ¬ Left q)
      → Kept Made Left same_file req s p
      → Kept Made (λ q. ⊥) same_file req s p
  Kept-tidy Left tidy (refused why e h is_p) = refused why e h is_p
  Kept-tidy Left tidy (failed e h is_err same) =
      failed e h is_err λ q. elim (same q) [ inl left ↦ absurd (tidy q left) | inr is ↦ inr is ]
  Kept-tidy Left tidy (signed b h is_ok made all) =
      signed b h is_ok made λ q. elim (all q) [ inl left ↦ absurd (tidy q left) | inr is ↦ inr is ]
