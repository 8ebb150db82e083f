-- ===== src/Backends/Jsign/Outcome.antt =====
-- What a call of jsign's `Sign` leaves behind.
use codesign.Common.{
  ◌≡◌, ◌≢◌, ◌⊎◌, refl, sym, ap, ◌∙◌, Bool, codes, false, List, [], ◌∷◌, ◌++◌, none, some, Bytes,
  equal, equal_iff, if◌then◌else◌, inl, inr, Bool-cases, arith,
}
use codesign.Common.Errors.{Error, Result, ok, err, err-ne-ok}
use codesign.Common.Store.{Store, content, put}
use codesign.Backends.{Runner, unless_refused, StagingFile, PinFile, publish_signed}
use codesign.Backends.Copying.{Copying, copy_file, copy_file-Copied}
use codesign.Backends.Jsign.{
  JsignConfig, jsign_options, jsign_ran, jsign_run, jsign_copied, jsign_write, jsign_refusal,
  jsign_sign,
}
use codesign.Backends.Pin.{
  HoldsPin, LeftPin, NewNames, PinRun, with_pin_file_keeps, with_pin_file-PinRun,
}
use codesign.Backends.Arguments.{GivesPin}
use codesign.Backends.Jsign.Arguments.{told_pin}
use codesign.Backends.Publish.{
  LeftStaging, Published, ConfinedAt, appears, withheld, put-beside, publish_signed-Published,
}
use codesign.Signer.{Request}

-- The tool changes the file that its last argument names, and no other.
abbrev pub SignsInPlace : Runner → Type 0
SignsInPlace run =
    (command : Bytes) (options : List Bytes) (path : Bytes) (s : Store) (q : Bytes)
    → equal path q ≡ false
    → content q (run command (options ++ (path ∷ [])) s).0 ≡ content q s

-- The tool has signed a file that held the input's content, and was told where the PIN stands, if
-- there is one.
pub record CopySigned (run : Runner) (config : JsignConfig) (unsigned path b : Bytes) : Type 0 where
  pub options : List Bytes
  pub output : Bytes
  pub before : Store
  pub gives :
      GivesPin (codes "--storepass") (codes "file:") config.pin (options ++ (path ∷ [])) before
  pub copied : content path before ≡ some unsigned
  pub ran : (run config.command (options ++ (path ∷ [])) before).1 ≡ ok output
  pub left : content path (run config.command (options ++ (path ∷ [])) before).0 ≡ some b

-- How the call ends: the tool has signed a copy of the input, which is the output now, or no file is
-- changed. A PIN file or a staging file may be left whose removal has failed.
pub data JsignSigned (run : Runner) (config : JsignConfig) (p : PinFile) (f : StagingFile)
    (req : Request) (unsigned : Bytes) (s : Store) (r : Store × Result (Unit {0})) : Type 0 where
  signed_copy :
      (path b : Bytes)
      → CopySigned run config unsigned path b
      → r.1 ≡ ok tt
      → ((q : Bytes)
          → LeftPin p q
            ⊎ (content q r.0 ≡ (if equal req.output_path q then some b else content q s)))
      → JsignSigned run config p f req unsigned s r
  unchanged :
      (e : Error)
      → r.1 ≡ err e
      → ((q : Bytes) → LeftStaging f q ⊎ (LeftPin p q ⊎ (content q r.0 ≡ content q s)))
      → JsignSigned run config p f req unsigned s r

jsign_ran_files : (r : Store × Result Bytes) (q : Bytes) → content q (jsign_ran r).0 ≡ content q r.0
jsign_ran_files (t, ok o) q = refl
jsign_ran_files (t, err e) q = refl

jsign_ran_ok :
    (r : Store × Result Bytes) → (jsign_ran r).1 ≡ ok tt → (output : Bytes) × (r.1 ≡ ok output)
jsign_ran_ok (t, ok o) h = (o, refl)
jsign_ran_ok (t, err e) h = absurd (err-ne-ok h)

jsign_run_ok :
    (run : Runner) (config : JsignConfig) (req : Request) (pin_path path : Bytes) (s : Store)
    → (jsign_run run config req pin_path path s).1 ≡ ok tt
    → (output : Bytes) × ((run config.command
          (jsign_options config pin_path req ++ (path ∷ []))
          s).1
        ≡ ok output)
      × (content path (jsign_run run config req pin_path path s).0
          ≡ content path
              (run config.command (jsign_options config pin_path req ++ (path ∷ [])) s).0)
unfolding jsign_run
jsign_run_ok run config req pin_path path s h =
    let r = run config.command (jsign_options config pin_path req ++ (path ∷ [])) s in
    let (output, done) = jsign_ran_ok r h in (output, done, jsign_ran_files r path)

pub gives_pin :
    (config : JsignConfig) (req : Request) (pin_path path pin : Bytes) (s : Store)
    → HoldsPin pin pin_path path s
    → GivesPin
        (codes "--storepass")
        (codes "file:")
        pin
        (jsign_options config pin_path req ++ (path ∷ []))
        s
gives_pin config req pin_path path [] s holds = tt
gives_pin config req pin_path path (c ∷ pin) s (there, named, apart) =
    (pin_path, told_pin config pin_path req path named, there)

jsign_run_keeps :
    (run : Runner) (config : JsignConfig) (req : Request) (pin_path path q : Bytes) (s : Store)
    → SignsInPlace run
    → equal path q ≡ false
    → content q (jsign_run run config req pin_path path s).0 ≡ content q s
unfolding jsign_run
jsign_run_keeps run config req pin_path path q s only other =
    ran_files (run config.command (jsign_options config pin_path req ++ (path ∷ [])) s)
    ∙ only config.command (jsign_options config pin_path req) path s q other
  where
    ran_files : (r : Store × Result Bytes) → content q (jsign_ran r).0 ≡ content q r.0
    ran_files (t, ok o) = refl
    ran_files (t, err e) = refl

module _ (run : Runner) (only : SignsInPlace run) (config : JsignConfig) (p : PinFile) (c : Copying)
    (req : Request) where
  -- Everything but the staging file is as before the write, and a PIN file that stays.
  copied_keeps :
      (path q : Bytes) (t : Store) (r : Store × Result (Unit {0}))
      → ((pin : Bytes) → p.name ≡ ok pin → content pin r.0 ≡ none)
      → equal path q ≡ false
      → content q r.0 ≡ content q t
      → LeftPin p q ⊎ (content q (jsign_copied run config p req path r).0 ≡ content q t)
  copied_keeps path q t (r, err e) is_new other same = inr same
  copied_keeps path q t (r, ok _) is_new other same =
      elim (with_pin_file_keeps p (λ pin_path u. jsign_run run config req pin_path path u) path
        (λ pin_path u x distinct. jsign_run_keeps run config req pin_path path x u only distinct) r
        is_new config.pin q other) [ inl left ↦ inl left | inr is ↦ inr (is ∙ same) ]

  pub copied-PinRun :
      (path : Bytes) (r : Store × Result (Unit {0}))
      → ((pin : Bytes) → p.name ≡ ok pin → content pin r.0 ≡ none)
      → ((pin : Bytes) → p.name ≡ ok pin → equal pin path ≡ false)
      → ((pin : Bytes) → p.name ≡ ok pin → pin ≢ [])
      → (jsign_copied run config p req path r).1 ≡ ok tt
      → (r.1 ≡ ok tt)
        × PinRun
            (λ pin_path u. jsign_run run config req pin_path path u)
            config.pin
            path
            r.0
            (jsign_copied run config p req path r)
  copied-PinRun path (r, err e) is_new apart named done = absurd (err-ne-ok done)
  copied-PinRun path (r, ok _) is_new apart named done = (
    refl,
    with_pin_file-PinRun p (λ pin_path u. jsign_run run config req pin_path path u) path
        (λ pin_path u x distinct. jsign_run_keeps run config req pin_path path x u only distinct) r
        is_new apart named config.pin done,
  )

  module _ (f : StagingFile) (s : Store) (names : NewNames p f req.output_path s) where
    -- The copy has not touched the path of the PIN file.
    pub pin_is_new :
        (path pin : Bytes)
        → f.name ≡ ok path
        → p.name ≡ ok pin
        → content pin (copy_file c req.input_path path (put path [] s)).0 ≡ none
    pin_is_new path pin named is_pin =
        (copy_file-Copied c req.input_path path (put path [] s)).0 pin distinct
        ∙ put-beside path pin [] s distinct
        ∙ names.pin_new pin is_pin
      where
        distinct : equal path pin ≡ false
        distinct =
            ground
              (arith, names.apart pin path is_pin named, equal_iff pin path, equal_iff path pin)

    -- The input is not the new file.
    pub input_kept :
        (unsigned path : Bytes)
        → content req.input_path s ≡ some unsigned
        → content path s ≡ none
        → content req.input_path (put path [] s) ≡ some unsigned
    input_kept unsigned path there is_new = elim (Bool-cases (equal path req.input_path)) [
      | inl same ↦ ground (
        arith,
        sym is_new ∙ ap (λ x. content x s) ((equal_iff path req.input_path).0 same) ∙ there,
      )
      | inr other ↦ put-beside path req.input_path [] s other ∙ there
    ]

    pub jsign_write-ConfinedAt : ConfinedAt (LeftPin p) f (jsign_write run config p c req) s
    unfolding jsign_write
    jsign_write-ConfinedAt path named q other =
        elim (copied_keeps path q (put path [] s) _ (λ pin is_pin. pin_is_new path pin named is_pin)
          other ((copy_file-Copied c req.input_path path (put path [] s)).0 q other)) [
            | inl left ↦ inl left
            | inr is ↦ inr (is ∙ put-beside path q [] s other)
          ]

    pub write-CopySigned :
        (unsigned path b : Bytes)
        → content req.input_path s ≡ some unsigned
        → f.name ≡ ok path
        → content path s ≡ none
        → (jsign_write run config p c req path (put path [] s)).1 ≡ ok tt
        → content path (jsign_write run config p c req path (put path [] s)).0 ≡ some b
        → CopySigned run config unsigned path b
    unfolding jsign_write
    write-CopySigned unsigned path b there named is_new done left =
        let after =
          copied-PinRun path (copy_file c req.input_path path (put path [] s))
            (λ pin is_pin. pin_is_new path pin named is_pin)
            (λ pin is_pin. names.apart pin path is_pin named) names.pin_named done in
        let tool = after.1 in
        let (output, ran, made) =
          jsign_run_ok run config req tool.pin_path path tool.before tool.ran in
        record {
          options = jsign_options config tool.pin_path req;
          output = output;
          before = tool.before;
          gives = gives_pin config req tool.pin_path path config.pin tool.before tool.holds;
          copied =
              tool.same_target
              ∙ (copy_file-Copied c req.input_path path (put path [] s)).1 after.0
              ∙ input_kept unsigned path there is_new;
          ran = ran;
          left = sym made ∙ sym tool.left ∙ left;
        }

    pub Published-JsignSigned :
        (unsigned : Bytes) (r : Store × Result (Unit {0}))
        → content req.input_path s ≡ some unsigned
        → Published (LeftPin p) f (jsign_write run config p c req) req.output_path s r
        → JsignSigned run config p f req unsigned s r
    Published-JsignSigned unsigned r there (withheld e failure same) = unchanged e failure same
    Published-JsignSigned unsigned r there (appears path b named is_new done left succeeds same) =
        signed_copy path b (write-CopySigned unsigned path b there named is_new done left) succeeds
          same

-- Where the input is there, the names of the PIN file and the staging file are new ones and the
-- tool writes its last argument alone, `Sign` of the jsign backend either fails, and no file is
-- changed, or the tool has succeeded on a file that has held the input's content, where its
-- `--storepass` named a file that held the PIN, if there is a PIN: then the output holds what the tool
-- has made of that copy, and every other file is as it was. Neither the PIN file nor the staging file
-- is left, but where its removal, whose error is ignored, has failed.
pub jsign_sign-JsignSigned :
    (run : Runner) (config : JsignConfig) (same_file : Bool) (p : PinFile) (f : StagingFile)
    (c : Copying) (req : Request) (s : Store) (unsigned : Bytes)
    → SignsInPlace run
    → content req.input_path s ≡ some unsigned
    → NewNames p f req.output_path s
    → JsignSigned run config p f req unsigned s (jsign_sign run config same_file p f c req s)
unfolding jsign_sign
jsign_sign-JsignSigned run config same_file p f c req s unsigned only there names =
    allowed (jsign_refusal config same_file req)
  where
    allowed :
        (x : Result (Unit {0}))
        → JsignSigned run config p f req unsigned s (
            unless_refused
              (codes "jsign sign")
              s
              x
              (publish_signed f req.output_path (jsign_write run config p c req) s))
    allowed (err e) = unchanged _ refl (λ q. inr (inr refl))
    allowed (ok _) = Published-JsignSigned run only config p c req f s names unsigned _ there (
        publish_signed-Published (LeftPin p) f req.output_path (jsign_write run config p c req) s
          (jsign_write-ConfinedAt run only config p c req f s names) names.staging_new)
