-- ===== src/Backends/Pin.antt =====
-- What `withPINFile` guarantees around an operation on one file.
pub mod Signed
use codesign.Common.{
  ℕ, ◌≡◌, ◌≢◌, ◌⊎◌, refl, sym, ap, ◌∙◌, true, false, [], ◌∷◌, Option, none, some, arith, Bytes,
  equal, equal_iff, equal_self, take, inl, inr, Bool-cases,
}
use codesign.Common.Errors.{Error, Result, ok, err, err-ne-ok}
use codesign.Common.Store.{Store, content, put, remove, discard, content-put, content-remove}
use codesign.Backends.{
  PinFile, StagingFile, Writer, pin_closed, pin_written, without, pin_created, with_pin_file,
}

-- The names of the two files are new, apart from each other, and the PIN's is none and not the output's.
pub record NewNames (p : PinFile) (f : StagingFile) (output : Bytes) (s : Store) : Type 0 where
  pub pin_named : (path : Bytes) → p.name ≡ ok path → path ≢ []
  pub pin_new : (path : Bytes) → p.name ≡ ok path → content path s ≡ none
  pub pin_apart : (path : Bytes) → p.name ≡ ok path → equal output path ≡ false
  pub staging_new : (path : Bytes) → f.name ≡ ok path → content path s ≡ none
  pub apart : (pin path : Bytes) → p.name ≡ ok pin → f.name ≡ ok path → equal pin path ≡ false

-- While an operation on the target runs, the PIN stands in the file that it is told, if there is a
-- PIN.
abbrev pub HoldsPin : Bytes → Bytes → Bytes → Store → Type 0
HoldsPin [] pin_path target s = pin_path ≡ []
HoldsPin (c ∷ pin) pin_path target s =
    (content pin_path s ≡ some (c ∷ pin)) × (pin_path ≢ []) × (equal pin_path target ≡ false)

-- The path of the PIN file, whose removal has failed.
abbrev pub LeftPin : PinFile → Bytes → Type 0
LeftPin p q =
    (path : Bytes) × (p.name ≡ ok path) × (equal path q ≡ true) × (e : Error) × (p.removed ≡ err e)

-- The operation changes the target alone, whatever path it is told.
abbrev pub KeepsBut : Bytes → Writer → Type 0
KeepsBut target operation =
    (pin_path : Bytes) (s : Store) (q : Bytes)
    → equal target q ≡ false
    → content q (operation pin_path s).0 ≡ content q s

-- The operation has succeeded, on a store that has the PIN file besides, and what it has left in
-- the target is there.
pub record PinRun (operation : Writer) (pin target : Bytes) (s : Store)
    (p : Store × Result (Unit {0})) : Type 0 where
  pub pin_path : Bytes
  pub before : Store
  pub holds : HoldsPin pin pin_path target before
  pub same_target : content target before ≡ content target s
  pub ran : (operation pin_path before).1 ≡ ok tt
  pub left : content target p.0 ≡ content target (operation pin_path before).0

module _ (p : PinFile) (operation : Writer) (target : Bytes) (keeps : KeepsBut target operation)
    (s : Store) (is_new : (path : Bytes) → p.name ≡ ok path → content path s ≡ none) where
  cleared :
      (path b : Bytes) (t : Store) (q : Bytes) (removed : Result (Unit {0}))
      → p.name ≡ ok path
      → p.removed ≡ removed
      → content q t ≡ content q (put path b s)
      → LeftPin p q ⊎ (content q (discard removed path t) ≡ content q s)
  cleared path b t q (ok _) is_path is_removed h = inr (elim (Bool-cases (equal path q)) [
    | inl same ↦ ground (
      arith,
      same,
      ap (λ x. content x s) (sym ((equal_iff path q).0 same)) ∙ is_new path is_path,
      content-remove path q t,
    )
    | inr other ↦ ground (arith, other, h, content-remove path q t, content-put path q b s)
  ])
  cleared path b t q (err e) is_path is_removed h = elim (Bool-cases (equal path q)) [
    | inl same ↦ inl (path, is_path, same, e, is_removed)
    | inr other ↦ inr (h ∙ content-put path q b s ∙ rw other refl)
  ]

  pin_closed_keeps :
      (path pin q : Bytes) (x : Result (Unit {0}))
      → p.name ≡ ok path
      → equal target q ≡ false
      → LeftPin p q
        ⊎ (content q (discard p.removed path (pin_closed operation path (put path pin s) x).0)
            ≡ content q s)
  pin_closed_keeps path pin q (err e) is_path other =
      cleared path pin _ q p.removed is_path refl refl
  pin_closed_keeps path pin q (ok _) is_path other =
      cleared path pin _ q p.removed is_path refl (keeps path (put path pin s) q other)

  pin_written_keeps :
      (path pin q : Bytes) (x : Option (ℕ × Error))
      → p.name ≡ ok path
      → equal target q ≡ false
      → LeftPin p q
        ⊎ (content q (discard p.removed path (pin_written p pin operation path s x).0)
            ≡ content q s)
  pin_written_keeps path pin q none is_path other =
      pin_closed_keeps path pin q p.closed is_path other
  pin_written_keeps path pin q (some (n, e)) is_path other =
      cleared path (take n pin) _ q p.removed is_path refl refl

  pin_created_keeps :
      (pin q : Bytes) (x : Result Bytes)
      → p.name ≡ x
      → equal target q ≡ false
      → LeftPin p q ⊎ (content q (pin_created p pin operation s x).0 ≡ content q s)
  pin_created_keeps pin q (err e) is_x other = inr refl
  pin_created_keeps pin q (ok path) is_path other =
      pin_written_keeps path pin q p.written is_path other

  -- Whatever fails, no file but the target is changed, and the PIN file is gone, if it could be
  -- removed.
  pub with_pin_file_keeps :
      (pin q : Bytes)
      → equal target q ≡ false
      → LeftPin p q ⊎ (content q (with_pin_file p pin operation s).0 ≡ content q s)
  unfolding with_pin_file
  with_pin_file_keeps [] q other = inr (keeps [] s q other)
  with_pin_file_keeps (c ∷ pin) q other = pin_created_keeps (c ∷ pin) q p.name refl other

  content-discard_other :
      (removed : Result (Unit {0})) (path q : Bytes) (t : Store)
      → equal path q ≡ false
      → content q (discard removed path t) ≡ content q t
  content-discard_other (ok _) path q t other = content-remove path q t ∙ rw other refl
  content-discard_other (err e) path q t other = refl

  module _ (apart : (path : Bytes) → p.name ≡ ok path → equal path target ≡ false)
      (named : (path : Bytes) → p.name ≡ ok path → path ≢ []) where
    pin_closed-PinRun :
        (c : ℕ) (pin path : Bytes) (x : Result (Unit {0}))
        → p.name ≡ ok path
        → (pin_closed operation path (put path (c ∷ pin) s) x).1 ≡ ok tt
        → PinRun operation
            (c ∷ pin)
            target
            s
            (without p.removed path (pin_closed operation path (put path (c ∷ pin) s) x))
    pin_closed-PinRun c pin path (err e) is_path h = absurd (err-ne-ok h)
    pin_closed-PinRun c pin path (ok _) is_path h = record {
      pin_path = path;
      before = put path (c ∷ pin) s;
      holds = (
        content-put path path (c ∷ pin) s ∙ rw (equal_self path) refl,
        named path is_path,
        apart path is_path,
      );
      same_target = content-put path target (c ∷ pin) s ∙ rw (apart path is_path) refl;
      ran = h;
      left = content-discard_other p.removed path target _ (apart path is_path);
    }

    pin_written-PinRun :
        (c : ℕ) (pin path : Bytes) (x : Option (ℕ × Error))
        → p.name ≡ ok path
        → (pin_written p (c ∷ pin) operation path s x).1 ≡ ok tt
        → PinRun operation
            (c ∷ pin)
            target
            s
            (without p.removed path (pin_written p (c ∷ pin) operation path s x))
    pin_written-PinRun c pin path none is_path h = pin_closed-PinRun c pin path p.closed is_path h
    pin_written-PinRun c pin path (some (n, e)) is_path h = absurd (err-ne-ok h)

    pin_created-PinRun :
        (c : ℕ) (pin : Bytes) (x : Result Bytes)
        → p.name ≡ x
        → (pin_created p (c ∷ pin) operation s x).1 ≡ ok tt
        → PinRun operation (c ∷ pin) target s (pin_created p (c ∷ pin) operation s x)
    pin_created-PinRun c pin (err e) is_x h = absurd (err-ne-ok h)
    pin_created-PinRun c pin (ok path) is_path h = pin_written-PinRun c pin path p.written is_path h

    pub with_pin_file-PinRun :
        (pin : Bytes)
        → (with_pin_file p pin operation s).1 ≡ ok tt
        → PinRun operation pin target s (with_pin_file p pin operation s)
    unfolding with_pin_file
    with_pin_file-PinRun [] h = record {
      pin_path = [];
      before = s;
      holds = refl;
      same_target = refl;
      ran = h;
      left = refl;
    }
    with_pin_file-PinRun (c ∷ pin) h = pin_created-PinRun c pin p.name refl h
