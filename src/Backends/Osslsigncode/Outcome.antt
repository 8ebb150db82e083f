-- ===== src/Backends/Osslsigncode/Outcome.antt =====
-- What a call of osslsigncode's `Sign` leaves behind.
use codesign.Common.{
  ◌≡◌, ◌⊎◌, refl, sym, ap, ◌∙◌, Bool, false, List, [], ◌∷◌, ◌++◌, Option, none, some, arith, Bytes,
  codes, equal, equal_iff, equal_self, if◌then◌else◌, inl, inr, Bool-cases,
}
use codesign.Common.Errors.{Error, Result, ok, err, err-ne-ok}
use codesign.Common.Store.{Store, content, remove, content-remove}
use codesign.Backends.{Runner, unless_refused, StagingFile, PinFile}
use codesign.Backends.Osslsigncode.{
  OsslConfig, ossl_options, ossl_args, ran, ossl_write, ossl_files, ossl_refusal, ossl_sign,
}
use codesign.Backends.Pin.{HoldsPin, NewNames, LeftPin}
use codesign.Backends.Publish.{LeftStaging}
use codesign.Signer.{Request}
use codesign.Backends.Arguments.{option_of, tail_of, GivesPin}
use codesign.Backends.Osslsigncode.Arguments.{told_input, told_output, told_pin}
use codesign.Backends.Pin.Signed.{Signed, published, unchanged as kept, with_pin_file-Signed}

-- The tool changes the file behind its last option, `-out`, and no other.
abbrev pub WritesOut : Runner → Type 0
WritesOut run =
    (command : Bytes) (options : List Bytes) (path : Bytes) (s : Store) (q : Bytes)
    → equal path q ≡ false
    → content q (run command (options ++ (codes "-out" ∷ path ∷ [])) s).0 ≡ content q s

-- How `Sign` ends: the tool has signed, or no file is changed. A PIN file or a staging file may be left
-- whose removal has failed.
pub data OsslSigned (run : Runner) (config : OsslConfig) (p : PinFile) (f : StagingFile)
    (req : Request) (s : Store) (r : Store × Result (Unit {0})) : Type 0 where
  tool_signed :
      (options : List Bytes) (path b output : Bytes) (before : Store)
      → option_of (codes "-in") (tail_of (options ++ (codes "-out" ∷ path ∷ [])))
        ≡ some req.input_path
      → option_of (codes "-out") (tail_of (options ++ (codes "-out" ∷ path ∷ []))) ≡ some path
      → GivesPin
          (codes "-readpass")
          []
          config.pin
          (tail_of (options ++ (codes "-out" ∷ path ∷ [])))
          before
      → content path before ≡ none
      → ((q u : Bytes) → content q s ≡ some u → content q before ≡ some u)
      → (run config.command (options ++ (codes "-out" ∷ path ∷ [])) before).1 ≡ ok output
      → content path (run config.command (options ++ (codes "-out" ∷ path ∷ [])) before).0 ≡ some b
      → r.1 ≡ ok tt
      → ((q : Bytes)
          → LeftPin p q
            ⊎ (content q r.0 ≡ (if equal req.output_path q then some b else content q s)))
      → OsslSigned run config p f req s r
  unchanged :
      (e : Error)
      → r.1 ≡ err e
      → ((q : Bytes) → LeftStaging f q ⊎ (LeftPin p q ⊎ (content q r.0 ≡ content q s)))
      → OsslSigned run config p f req s r

ran_files : (r : Store × Result Bytes) (q : Bytes) → content q (ran r).0 ≡ content q r.0
ran_files (t, ok o) q = refl
ran_files (t, err e) q = refl

ran_ok : (r : Store × Result Bytes) → (ran r).1 ≡ ok tt → (output : Bytes) × (r.1 ≡ ok output)
ran_ok (t, ok o) h = (o, refl)
ran_ok (t, err e) h = absurd (err-ne-ok h)

module _ (run : Runner) (config : OsslConfig) (req : Request) (pin_path path : Bytes) where
  ossl_write_keeps :
      (clearing : Result (Unit {0})) (q : Bytes) (s : Store)
      → WritesOut run
      → equal path q ≡ false
      → content q (ossl_write run clearing config req pin_path path s).0 ≡ content q s
  unfolding ossl_write
  ossl_write_keeps (err e) q s only other = refl
  ossl_write_keeps (ok _) q s only other =
      ran_files (run config.command (ossl_args config pin_path req path) (remove path s)) q
      ∙ only config.command (ossl_options config pin_path req) path (remove path s) q other
      ∙ content-remove path q s
      ∙ rw other refl

  -- A write that succeeds has run the tool where nothing stands at the path.
  ossl_write_ok :
      (clearing : Result (Unit {0})) (s : Store)
      → (ossl_write run clearing config req pin_path path s).1 ≡ ok tt
      → (output : Bytes) × ((run config.command
            (ossl_args config pin_path req path)
            (remove path s)).1
          ≡ ok output)
        × (content path (ossl_write run clearing config req pin_path path s).0
            ≡ content path
                (run config.command (ossl_args config pin_path req path) (remove path s)).0)
  unfolding ossl_write
  ossl_write_ok (err e) s h = absurd (err-ne-ok h)
  ossl_write_ok (ok _) s h =
      let r = run config.command (ossl_args config pin_path req path) (remove path s) in
      let (output, done) = ran_ok r h in (output, done, ran_files r path)

  pub gives_pin :
      (pin : Bytes) (s : Store)
      → HoldsPin pin pin_path path s
      → GivesPin
          (codes "-readpass")
          []
          pin
          (tail_of (ossl_args config pin_path req path))
          (remove path s)
  gives_pin [] s holds = tt
  gives_pin (c ∷ pin) s (there, named, apart) = (
    pin_path,
    told_pin config pin_path req path named,
    content-remove path pin_path s ∙ rw (elsewhere pin_path path apart) there,
  )
    where
      elsewhere : (a b : Bytes) → equal a b ≡ false → equal b a ≡ false
      elsewhere a b other = ground (arith, other, equal_iff a b, equal_iff b a)

  pub present_removed :
      (q u : Bytes) (s t : Store)
      → content path s ≡ none
      → content q s ≡ some u
      → content q t ≡ some u
      → content q (remove path t) ≡ some u
  present_removed q u s t is_new there still = elim (Bool-cases (equal path q)) [
    | inl same ↦
        absurd (missing (sym is_new ∙ ap (λ x. content x s) ((equal_iff path q).0 same) ∙ there))
    | inr other ↦ content-remove path q t ∙ rw other still
  ]
    where
      missing : ¬ (◌≡◌ {A = Option Bytes} none (some u))
      missing h = cc

module _ (run : Runner) (clearing : Result (Unit {0})) (config : OsslConfig) (p : PinFile)
    (f : StagingFile) (req : Request) (s : Store) where
  Signed-OsslSigned :
      (r : Store × Result (Unit {0}))
      → Signed f p (ossl_write run clearing config req) config.pin req.output_path s r
      → OsslSigned run config p f req s r
  Signed-OsslSigned r (kept e failure same) = unchanged e failure same
  Signed-OsslSigned r
        (published pin_path path b before holds is_new still done there succeeds same) =
      let (output, tool, left) = ossl_write_ok run config req pin_path path clearing before done in
      tool_signed (ossl_options config pin_path req) path b output (remove path before)
        (told_input config pin_path req path) (told_output config pin_path req path)
        (gives_pin run config req pin_path path config.pin before holds)
        (content-remove path path before ∙ rw (equal_self path) refl)
        (λ q u present.
          present_removed run config req pin_path path q u s before is_new present
            (still q u present))
        tool (sym left ∙ there) succeeds same

  pub ossl_files-OsslSigned :
      WritesOut run
      → NewNames p f req.output_path s
      → OsslSigned run config p f req s (ossl_files run clearing config p f req s)
  ossl_files-OsslSigned only names = Signed-OsslSigned _ (
      with_pin_file-Signed f p (ossl_write run clearing config req)
        (λ pin_path path q t other.
          ossl_write_keeps run config req pin_path path clearing q t only other)
        req.output_path s names config.pin)

-- Where the names of the PIN file and the staging file are new ones and the tool writes its `-out`
-- alone, `Sign` of the osslsigncode backend either fails, and no file is changed, or the tool has
-- succeeded: its `-in` was the request's input, its `-out` was a path where nothing stood, its
-- `-readpass` named a file that held the PIN, if there is a PIN, and every file was there as before.
-- Then the output holds what the tool has written, and every other file is as it was. Neither the
-- PIN file nor the staging file is left, but where its removal, whose error is ignored, has failed.
pub ossl_sign-Signed :
    (run : Runner) (clearing : Result (Unit {0})) (config : OsslConfig) (same_file : Bool)
    (p : PinFile) (f : StagingFile) (req : Request) (s : Store)
    → WritesOut run
    → NewNames p f req.output_path s
    → OsslSigned run config p f req s (ossl_sign run clearing config same_file p f req s)
unfolding ossl_sign
ossl_sign-Signed run clearing config same_file p f req s only names =
    allowed (ossl_refusal config same_file req)
  where
    allowed :
        (x : Result (Unit {0}))
        → OsslSigned run config p f req s (
            unless_refused
              (codes "osslsigncode sign")
              s
              x
              (ossl_files run clearing config p f req s))
    allowed (err e) = unchanged _ refl (λ q. inr (inr refl))
    allowed (ok _) = ossl_files-OsslSigned run clearing config p f req s only names
