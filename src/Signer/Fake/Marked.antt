-- ===== src/Signer/Fake/Marked.antt =====
-- What a sign request to the fake signer of signer/fake.go comes to.
use codesign.Common.{
  ℕ, ◌≡◌, refl, sym, ◌∙◌, Bool, false, ◌++◌, Option, none, some, Bytes, equal, if◌then◌else◌,
}
use codesign.Common.Errors.{Error, Result, ok, err, err-ne-ok}
use codesign.Common.Store.{Store, content, put, content-put}
use codesign.Signer.{Request, check}
use codesign.Signer.Fake.{
  Fake, Marking, fake_marker, fake_sign, fake_checked, unless_set, recorded, copy_with_marker,
  marker_opened, marker_found, marker_created, body_copied, marked_to, marker_closed,
}

-- Every system call succeeds, and the input is there.
pub record Smooth (m : Marking) (input : Option Bytes) : Type 0 where
  pub opens : m.opened ≡ ok tt
  pub there : ¬ (input ≡ none)
  pub creates : m.created ≡ ok tt
  pub copies : m.copied ≡ none
  pub marks : m.marked ≡ none
  pub closes : m.closed ≡ ok tt

-- How the fake signer's copy ends. Unlike a backend it writes at the output itself.
pub data Marked (m : Marking) (from to : Bytes) (s : Store) (p : Store × Result (Unit {0}))
    : Type 0 where
  marked :
      (b : Bytes)
      → content from s ≡ some b
      → p.1 ≡ ok tt
      → ((q : Bytes)
          → content q p.0 ≡ (if equal to q then some (b ++ fake_marker) else content q s))
      → Marked m from to s p
  hindered :
      (e : Error)
      → ¬ Smooth m (content from s)
      → p.1 ≡ err e
      → ((q : Bytes) → equal to q ≡ false → content q p.0 ≡ content q s)
      → Marked m from to s p

some-ne-none {ℓ} : {A : Type ℓ} {x : A} → ¬ (some x ≡ none)
some-ne-none k = cc

module _ (m : Marking) (from to b : Bytes) (s : Store) (reads : content from s ≡ some b) where
  cut_short :
      (part : Bytes) (e : Error)
      → ¬ Smooth m (content from s)
      → Marked m from to s (put to part s, err e)
  cut_short part e why = hindered e why refl (λ q other. content-put to q part s ∙ rw other refl)

  marker_closed-Marked :
      (r : Result (Unit {0}))
      → m.closed ≡ r
      → Marked m from to s (marker_closed (put to (b ++ fake_marker) s) r)
  marker_closed-Marked (ok _) is_r =
      marked b reads refl (λ q. content-put to q (b ++ fake_marker) s)
  marker_closed-Marked (err e) is_r = cut_short _ _ (λ smooth. err-ne-ok (sym is_r ∙ smooth.closes))

  marked_to-Marked :
      (r : Option (ℕ × Error)) → m.marked ≡ r → Marked m from to s (marked_to m to b s r)
  marked_to-Marked none is_r = marker_closed-Marked m.closed refl
  marked_to-Marked (some (n, e)) is_r =
      cut_short _ _ (λ smooth. some-ne-none (sym is_r ∙ smooth.marks))

  body_copied-Marked :
      (r : Option (ℕ × Error)) → m.copied ≡ r → Marked m from to s (body_copied m to b s r)
  body_copied-Marked none is_r = marked_to-Marked m.marked refl
  body_copied-Marked (some (n, e)) is_r =
      cut_short _ _ (λ smooth. some-ne-none (sym is_r ∙ smooth.copies))

  marker_created-Marked :
      (r : Result (Unit {0})) → m.created ≡ r → Marked m from to s (marker_created m to b s r)
  marker_created-Marked (ok _) is_r = body_copied-Marked m.copied refl
  marker_created-Marked (err e) is_r =
      hindered _ (λ smooth. err-ne-ok (sym is_r ∙ smooth.creates)) refl (λ q other. refl)

module _ (m : Marking) (from to : Bytes) (s : Store) where
  marker_found-Marked :
      (input : Option Bytes)
      → content from s ≡ input
      → Marked m from to s (marker_found m to s input)
  marker_found-Marked (some b) reads = marker_created-Marked m from to b s reads m.created refl
  marker_found-Marked none reads = hindered _ (λ smooth. smooth.there reads) refl (λ q other. refl)

  marker_opened-Marked :
      (r : Result (Unit {0})) → m.opened ≡ r → Marked m from to s (marker_opened m from to s r)
  marker_opened-Marked (ok _) is_r = marker_found-Marked (content from s) refl
  marker_opened-Marked (err e) is_r =
      hindered _ (λ smooth. err-ne-ok (sym is_r ∙ smooth.opens)) refl (λ q other. refl)

  copy_with_marker-Marked : Marked m from to s (copy_with_marker m from to s)
  unfolding copy_with_marker
  copy_with_marker-Marked = marker_opened-Marked m.opened refl

-- The ends of a request to the fake signer, with what it remembers.
pub data FakeSigned (m : Marking) (req : Request) (f : Fake) (s : Store) (c : Result (Unit {0}))
    : Fake × (Store × Result (Unit {0})) → Type 0 where
  refused : {e : Error} → c ≡ err e → FakeSigned m req f s c (f, (s, err e))
  told :
      {e : Error}
      → c ≡ ok tt
      → f.sign_err ≡ some e
      → FakeSigned m req f s c (recorded req f, (s, err e))
  copied :
      {p : Store × Result (Unit {0})}
      → c ≡ ok tt
      → f.sign_err ≡ none
      → Marked m req.input_path req.output_path s p
      → FakeSigned m req f s c (recorded req f, p)

module _ (m : Marking) (req : Request) (f : Fake) (s : Store) where
  unless_set-FakeSigned :
      (stop : Option Error)
      → f.sign_err ≡ stop
      → FakeSigned m req f s
          (ok tt)
          (recorded req f, unless_set stop s (copy_with_marker m req.input_path req.output_path s))
  unless_set-FakeSigned (some e) is_stop = told refl is_stop
  unless_set-FakeSigned none is_stop =
      copied refl is_stop (copy_with_marker-Marked m req.input_path req.output_path s)

  fake_checked-FakeSigned :
      (c : Result (Unit {0})) → FakeSigned m req f s c (fake_checked m req f s c)
  fake_checked-FakeSigned (err e) = refused refl
  fake_checked-FakeSigned (ok _) = unless_set-FakeSigned f.sign_err refl

-- `Sign` of the fake signer refuses what `Check` refuses and remembers nothing of it; any other
-- request is put behind those it remembers. Then it fails with the error that it was told to fail
-- with and changes no file, or the output is the input's content with the marker behind it and
-- every other file is as it was, or it fails because a call of the system failed or the input is
-- not there, and no file but the output has changed.
pub fake_sign-FakeSigned :
    (same_file : Bool) (m : Marking) (req : Request) (f : Fake) (s : Store)
    → FakeSigned m req f s (check same_file req) (fake_sign same_file m req f s)
unfolding fake_sign
fake_sign-FakeSigned same_file m req f s = fake_checked-FakeSigned m req f s (check same_file req)
