-- ===== src/Backends/Pin/Signed.antt =====
-- What a publication inside `withPINFile` leaves behind.
use codesign.Common.{
  ℕ, ◌≡◌, ◌⊎◌, refl, sym, ap, ◌∙◌, true, false, [], ◌∷◌, Option, none, some, arith, Bytes, equal,
  equal_iff, equal_self, if◌then◌else◌, take, inl, inr, Bool-cases,
}
use codesign.Common.Errors.{Error, Result, ok, err}
use codesign.Common.Store.{Store, content, put, discard, content-put, content-remove}
use codesign.Backends.{
  StagingFile, PinFile, Writer, publish_signed, pin_closed, pin_written, without, pin_created,
  with_pin_file,
}
use codesign.Backends.Pin.{HoldsPin, NewNames, LeftPin}
use codesign.Backends.Publish.{
  LeftStaging, Published, appears, withheld, put-beside, publish_signed-Published,
}

-- How the call ends: the output is what the tool has written, or no file is changed. A PIN file or a
-- staging file may be left whose removal has failed.
pub data Signed (f : StagingFile) (p : PinFile) (write : Bytes → Writer) (pin output : Bytes)
    (s : Store) (r : Store × Result (Unit {0})) : Type 0 where
  published :
      (pin_path path b : Bytes) (before : Store)
      → HoldsPin pin pin_path path before
      → content path s ≡ none
      → ((q u : Bytes) → content q s ≡ some u → content q before ≡ some u)
      → (write pin_path path before).1 ≡ ok tt
      → content path (write pin_path path before).0 ≡ some b
      → r.1 ≡ ok tt
      → ((q : Bytes)
          → LeftPin p q ⊎ (content q r.0 ≡ (if equal output q then some b else content q s)))
      → Signed f p write pin output s r
  unchanged :
      (e : Error)
      → r.1 ≡ err e
      → ((q : Bytes) → LeftStaging f q ⊎ (LeftPin p q ⊎ (content q r.0 ≡ content q s)))
      → Signed f p write pin output s r

-- A file that is there stays when a new one is made.
pub present_put :
    (path b q u : Bytes) (s : Store)
    → content path s ≡ none
    → content q s ≡ some u
    → content q (put path b s) ≡ some u
present_put path b q u s is_new there = elim (Bool-cases (equal path q)) [
  | inl same ↦
      absurd (missing (sym is_new ∙ ap (λ x. content x s) ((equal_iff path q).0 same) ∙ there))
  | inr other ↦ put-beside path q b s other ∙ there
]
  where
    missing : ¬ (◌≡◌ {A = Option Bytes} none (some u))
    missing h = cc

module _ (f : StagingFile) (p : PinFile) (write : Bytes → Writer)
    (confined : (pin_path path q : Bytes) (s : Store)
      → equal path q ≡ false
      → content q (write pin_path path s).0 ≡ content q s)
    (output : Bytes) (s : Store) (names : NewNames p f output s) where
  abbrev publish : Writer
  publish pin_path t = publish_signed f output (write pin_path) t

  -- Behind the removal of the PIN file, a path holds what it has held without that file.
  settled :
      (pin_path pin q : Bytes) (t : Store) (removed : Result (Unit {0})) (x : Option Bytes)
      → p.name ≡ ok pin_path
      → p.removed ≡ removed
      → (equal pin_path q ≡ true → x ≡ none)
      → content q t ≡ x ⊎ (equal pin_path q ≡ true)
      → LeftPin p q ⊎ (content q (discard removed pin_path t) ≡ x)
  settled pin_path pin q t (ok _) x named is_removed gone (inl same) =
      elim (Bool-cases (equal pin_path q)) [
        | inl is_q ↦ inr (content-remove pin_path q t ∙ rw is_q (sym (gone is_q)))
        | inr other ↦ inr (content-remove pin_path q t ∙ rw other same)
      ]
  settled pin_path pin q t (ok _) x named is_removed gone (inr is_q) =
      inr (content-remove pin_path q t ∙ rw is_q (sym (gone is_q)))
  settled pin_path pin q t (err e) x named is_removed gone (inl same) = inr same
  settled pin_path pin q t (err e) x named is_removed gone (inr is_q) =
      inl (pin_path, named, is_q, e, is_removed)

  module _ (c : ℕ) (pin path : Bytes) (named : p.name ≡ ok path) where
    missing_pin : (q : Bytes) → equal path q ≡ true → content q s ≡ none
    missing_pin q same =
        ap (λ x. content x s) (sym ((equal_iff path q).0 same)) ∙ names.pin_new path named

    missing_made :
        (b q : Bytes)
        → equal path q ≡ true
        → (if equal output q then some b else content q s) ≡ none
    missing_made b q same =
        rw (ap (equal output) (sym ((equal_iff path q).0 same)) ∙ names.pin_apart path named)
          (missing_pin q same)

    as_before :
        (b q : Bytes) (t : Store)
        → content q t ≡ content q (put path b s)
        → content q t ≡ content q s ⊎ (equal path q ≡ true)
    as_before b q t h = elim (Bool-cases (equal path q)) [
      | inl same ↦ inr same
      | inr other ↦ inl (h ∙ put-beside path q b s other)
    ]

    as_made :
        (b' b q : Bytes) (t : Store)
        → content q t ≡ (if equal output q then some b else content q (put path b' s))
        → content q t ≡ (if equal output q then some b else content q s) ⊎ (equal path q ≡ true)
    as_made b' b q t h = elim (Bool-cases (equal path q)) [
      | inl same ↦ inr same
      | inr other ↦ inl (h ∙ rw (put-beside path q b' s other) refl)
    ]

    restored :
        (b q : Bytes) (t : Store)
        → content q t ≡ content q (put path b s)
        → LeftPin p q ⊎ (content q (discard p.removed path t) ≡ content q s)
    restored b q t h =
        settled path pin q t p.removed (content q s) named refl (missing_pin q) (as_before b q t h)

    pinned-Signed :
        (r : Store × Result (Unit {0}))
        → Published (λ q. ⊥) f (write path) output (put path (c ∷ pin) s) r
        → Signed f p write (c ∷ pin) output s (without p.removed path r)
    pinned-Signed r (withheld e failure same) = unchanged e failure λ q. elim (same q) [
      | inl left ↦ inl left
      | inr (inl nothing) ↦ absurd nothing
      | inr (inr is) ↦ inr (restored (c ∷ pin) q r.0 is)
    ]
    pinned-Signed r (appears staging b staging_named new_there done there succeeds same) =
        let apart = names.apart path staging named staging_named in
        let staging_new = names.staging_new staging staging_named in
        published path staging b (put staging [] (put path (c ∷ pin) s))
          (
            put-beside staging path [] (put path (c ∷ pin) s) (elsewhere path staging apart)
                ∙ content-put path path (c ∷ pin) s
                ∙ rw (equal_self path) refl,
            names.pin_named path named,
            apart,
          )
          staging_new
          (λ q u present.
            present_put staging [] q u (put path (c ∷ pin) s)
              (put-beside path staging (c ∷ pin) s apart ∙ staging_new)
              (present_put path (c ∷ pin) q u s (names.pin_new path named) present))
          done there succeeds
          λ q. elim (same q) [
            | inl nothing ↦ absurd nothing
            | inr is ↦
                settled path pin q r.0 p.removed (if equal output q then some b else content q s)
                  named refl (missing_made b q) (as_made (c ∷ pin) b q r.0 is)
          ]
      where
        elsewhere : (a b : Bytes) → equal a b ≡ false → equal b a ≡ false
        elsewhere a b other = ground (arith, other, equal_iff a b, equal_iff b a)

    pin_closed-Signed :
        (x : Result (Unit {0}))
        → Signed f p write
            (c ∷ pin)
            output
            s
            (without p.removed path (pin_closed publish path (put path (c ∷ pin) s) x))
    pin_closed-Signed (err e) =
        unchanged _ refl (λ q. inr (restored (c ∷ pin) q (put path (c ∷ pin) s) refl))
    pin_closed-Signed (ok _) = pinned-Signed _ (
        publish_signed-Published (λ q. ⊥) f output (write path) (put path (c ∷ pin) s)
          (λ staging is_staging q other. inr (
            confined path staging q (put staging [] (put path (c ∷ pin) s)) other
            ∙ put-beside staging q [] (put path (c ∷ pin) s) other))
          (λ staging is_staging.
            put-beside path staging (c ∷ pin) s (names.apart path staging named is_staging)
            ∙ names.staging_new staging is_staging))

    pin_written-Signed :
        (x : Option (ℕ × Error))
        → Signed f p write
            (c ∷ pin)
            output
            s
            (without p.removed path (pin_written p (c ∷ pin) publish path s x))
    pin_written-Signed none = pin_closed-Signed p.closed
    pin_written-Signed (some (n, e)) =
        unchanged _ refl
          (λ q. inr (restored (take n (c ∷ pin)) q (put path (take n (c ∷ pin)) s) refl))

  pin_created-Signed :
      (c : ℕ) (pin : Bytes) (x : Result Bytes)
      → p.name ≡ x
      → Signed f p write (c ∷ pin) output s (pin_created p (c ∷ pin) publish s x)
  pin_created-Signed c pin (err e) is_x = unchanged _ refl (λ q. inr (inr refl))
  pin_created-Signed c pin (ok path) is_path = pin_written-Signed c pin path is_path p.written

  bare-Signed :
      (r : Store × Result (Unit {0}))
      → Published (λ q. ⊥) f (write []) output s r
      → Signed f p write [] output s r
  bare-Signed r (withheld e failure same) = unchanged e failure λ q. elim (same q) [
    | inl left ↦ inl left
    | inr (inl nothing) ↦ absurd nothing
    | inr (inr is) ↦ inr (inr is)
  ]
  bare-Signed r (appears staging b named new_there done there succeeds same) =
      published [] staging b (put staging [] s) refl new_there
        (λ q u present. present_put staging [] q u s new_there present) done there succeeds
        λ q. elim (same q) [ inl nothing ↦ absurd nothing | inr is ↦ inr is ]

  pub with_pin_file-Signed :
      (pin : Bytes) → Signed f p write pin output s (with_pin_file p pin publish s)
  unfolding with_pin_file
  with_pin_file-Signed [] = bare-Signed _ (
      publish_signed-Published (λ q. ⊥) f output (write []) s
        (λ staging is_staging q other.
          inr (confined [] staging q (put staging [] s) other ∙ put-beside staging q [] s other))
        names.staging_new)
  with_pin_file-Signed (c ∷ pin) = pin_created-Signed c pin p.name refl
