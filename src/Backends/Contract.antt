-- ===== src/Backends/Contract.antt =====
-- Both backends keep what a `Signer` promises, whatever the system calls around them come to.
use codesign.Common.{
  ◌≡◌, ◌⊎◌, inl, inr, some, refl, ap, sym, ◌∙◌, Bool, Bytes, codes, List, [], ◌∷◌, ◌++◌,
}
use codesign.Common.Errors.{Result, ok, err, err-ne-ok, ◌>>=◌}
use codesign.Common.Store.{Store, content}
use codesign.Backends.{Runner, unless_refused, StagingFile, PinFile}
use codesign.Backends.Copying.{Copying}
use codesign.Backends.Jsign.{JsignConfig, jsign_write, jsign_sign}
use codesign.Backends.Jsign.Outcome.{SignsInPlace, write-CopySigned, jsign_write-ConfinedAt}
use codesign.Backends.Osslsigncode.{OsslConfig, ossl_sign}
use codesign.Backends.Osslsigncode.Outcome.{
  WritesOut, OsslSigned, tool_signed, unchanged, ossl_files-OsslSigned,
}
use codesign.Backends.Pin.{NewNames, LeftPin}
use codesign.Backends.Publish.{LeftStaging, Published, appears, withheld, publish_signed-Published}
use codesign.Backends.Arguments.{option_of, tail_of}
use codesign.Signer.{Request, check}
use codesign.Signer.Contract.{Kept, refused, failed, signed, Kept-tidy, Backend}

-- `-out` is an option like any other.
SignsInPlace-WritesOut : (run : Runner) → SignsInPlace run → WritesOut run
SignsInPlace-WritesOut run only command options path s q other =
    ap (λ x. content q (run command x s).0)
      (sym (append_assoc options (codes "-out" ∷ []) (path ∷ [])))
    ∙ only command (options ++ (codes "-out" ∷ [])) path s q other
  where
    append_assoc : (a b c : List Bytes) → ((a ++ b) ++ c) ≡ (a ++ (b ++ c))
    append_assoc [] b c = refl
    append_assoc (x ∷ a) b c = ap (λ t. x ∷ t) (append_assoc a b c)

-- What the operating system makes of each request, on the files as they are then: the names that
-- `os.CreateTemp` picks are new.
pub record Host : Type 0 where
  pub same_file : Request → Store → Bool
  pub pin_file : Request → Store → PinFile
  pub staging_file : Request → Store → StagingFile
  pub clearing : Request → Store → Result (Unit {0})
  pub copying : Request → Store → Copying
  pub new_names :
      (req : Request) (s : Store) → NewNames (pin_file req s) (staging_file req s) req.output_path s

-- What the tools make of a file: the documented promises of osslsigncode, which reads its `-in` and
-- writes its `-out`, and of jsign, which signs the file that its last argument names.
abbrev pub MakesOut : (Bytes → Bytes → Type 0) → Runner → Type 0
MakesOut Makes run =
    (command path input u b output : Bytes) (options : List Bytes) (s : Store)
    → option_of (codes "-in") (tail_of (options ++ (codes "-out" ∷ path ∷ []))) ≡ some input
    → option_of (codes "-out") (tail_of (options ++ (codes "-out" ∷ path ∷ []))) ≡ some path
    → content input s ≡ some u
    → (run command (options ++ (codes "-out" ∷ path ∷ [])) s).1 ≡ ok output
    → content path (run command (options ++ (codes "-out" ∷ path ∷ [])) s).0 ≡ some b
    → Makes u b

abbrev pub MakesInPlace : (Bytes → Bytes → Type 0) → Runner → Type 0
MakesInPlace Makes run =
    (command path u b output : Bytes) (options : List Bytes) (s : Store)
    → content path s ≡ some u
    → (run command (options ++ (path ∷ [])) s).1 ≡ ok output
    → content path (run command (options ++ (path ∷ [])) s).0 ≡ some b
    → Makes u b

-- The signed file is made of the input.
abbrev pub MadeOf : (Bytes → Bytes → Type 0) → Request → Store → Bytes → Type 0
MadeOf Makes req s b = (u : Bytes) → content req.input_path s ≡ some u → Makes u b

-- What a backend may leave behind: a staging file or a PIN file whose removal has failed.
abbrev pub MayLeave : StagingFile → PinFile → Bytes → Type 0
MayLeave f p q = LeftStaging f q ⊎ LeftPin p q

either {ℓ} : {A B C : Type ℓ} → A ⊎ (B ⊎ C) → (A ⊎ B) ⊎ C
either (inl a) = inl (inl a)
either (inr (inl b)) = inl (inr b)
either (inr (inr c)) = inr c

module _ (Made Left : Bytes → Type 0) (note : Bytes) (same_file : Bool) (req : Request) (s : Store)
    (wanting : Result (Unit {0})) (next : Store × Result (Unit {0})) where
  -- Where the request passes, the configuration may still be refused.
  configured-Kept :
      (x : Result (Unit {0}))
      → check same_file req ≡ ok tt
      → Kept Made Left same_file req s next
      → Kept Made Left same_file req s (unless_refused note s x next)
  configured-Kept (err e) passed kept = failed _ passed refl (λ q. inr refl)
  configured-Kept (ok _) passed kept = kept

  -- A signer that starts with the check of the request.
  checked-Kept :
      (x : Result (Unit {0}))
      → check same_file req ≡ x
      → (check same_file req ≡ ok tt → Kept Made Left same_file req s next)
      → Kept Made Left same_file req s (unless_refused note s (x >>= λ _. wanting) next)
  checked-Kept (err e) is_x kept = refused e _ is_x refl
  checked-Kept (ok _) is_x kept = configured-Kept wanting is_x (kept is_x)

module _ (Makes : Bytes → Bytes → Type 0) (run : Runner) (p : PinFile) (f : StagingFile)
    (same_file : Bool) (req : Request) (s : Store) (passed : check same_file req ≡ ok tt) where
  OsslSigned-Kept :
      (config : OsslConfig) (r : Store × Result (Unit {0}))
      → MakesOut Makes run
      → OsslSigned run config p f req s r
      → Kept (MadeOf Makes req s) (MayLeave f p) same_file req s r
  OsslSigned-Kept config r makes
        (tool_signed options path b output before asks tells pin clear still ran left succeeds
          all) =
      signed b passed succeeds
        (λ u there.
          makes config.command path req.input_path u b output options before asks tells
            (still req.input_path u there) ran left)
        (λ q. elim (all q) [ inl left_pin ↦ inl (inr left_pin) | inr is ↦ inr is ])
  OsslSigned-Kept config r makes (unchanged e failure same) =
      failed e passed failure (λ q. either (same q))

  Published-Kept :
      (config : JsignConfig) (c : Copying) (r : Store × Result (Unit {0}))
      → MakesInPlace Makes run
      → SignsInPlace run
      → NewNames p f req.output_path s
      → Published (LeftPin p) f (jsign_write run config p c req) req.output_path s r
      → Kept (MadeOf Makes req s) (MayLeave f p) same_file req s r
  Published-Kept config c r makes only names (withheld e failure same) =
      failed e passed failure (λ q. either (same q))
  Published-Kept config c r makes only names (appears path b named is_new done left succeeds all) =
      signed b passed succeeds
        (λ u there.
          let tool =
            write-CopySigned run only config p c req f s names u path b there named is_new done
              left in
          makes config.command path u b tool.output tool.options tool.before tool.copied tool.ran
            tool.left)
        (λ q. elim (all q) [ inl left_pin ↦ inl (inr left_pin) | inr is ↦ inr is ])

-- The removals of the host's temporary files succeed.
abbrev pub IsTidy : Host → Type 0
IsTidy h =
    (req : Request) (s : Store)
    → ((h.staging_file req s).removed ≡ ok tt) × ((h.pin_file req s).removed ≡ ok tt)

pub tidy_leaves_none :
    (f : StagingFile) (p : PinFile) (q : Bytes)
    → f.removed ≡ ok tt
    → p.removed ≡ ok tt
    → ¬ MayLeave f p q
tidy_leaves_none f p q f_goes p_goes (inl (path, named, same, e, broke)) =
    err-ne-ok (sym broke ∙ f_goes)
tidy_leaves_none f p q f_goes p_goes (inr (path, named, same, e, broke)) =
    err-ne-ok (sym broke ∙ p_goes)

module _ (h : Host) (run : Runner) where
  -- The backends, with what the host makes of each request.
  abbrev pub ossl_signer : OsslConfig → Request → Store → Store × Result (Unit {0})
  ossl_signer config req s =
      ossl_sign run (h.clearing req s) config (h.same_file req s) (h.pin_file req s)
        (h.staging_file req s) req s

  abbrev pub jsign_signer : JsignConfig → Request → Store → Store × Result (Unit {0})
  jsign_signer config req s =
      jsign_sign run config (h.same_file req s) (h.pin_file req s) (h.staging_file req s)
        (h.copying req s) req s

  -- A signer of this host keeps the promise of the abstract one.
  abbrev pub Refines :
      (Bytes → Bytes → Type 0) → (Request → Store → Store × Result (Unit {0})) → Type 0
  Refines Makes sign =
      (req : Request) (s : Store)
      → Kept (MadeOf Makes req s) (MayLeave (h.staging_file req s) (h.pin_file req s))
          (h.same_file req s) req s (sign req s)

  module _ (Makes : Bytes → Bytes → Type 0) where
    pub ossl_signer-Kept :
        WritesOut run
        → MakesOut Makes run
        → (config : OsslConfig) → Refines Makes (ossl_signer config)
    unfolding ossl_sign
    ossl_signer-Kept only makes config req s =
        checked-Kept (MadeOf Makes req s) (MayLeave (h.staging_file req s) (h.pin_file req s))
          (codes "osslsigncode sign") (h.same_file req s) req s _ _ (check (h.same_file req s) req)
          refl
          (λ passed.
            OsslSigned-Kept Makes run (h.pin_file req s) (h.staging_file req s) (h.same_file req s)
              req s passed config _ makes
              (ossl_files-OsslSigned run (h.clearing req s) config (h.pin_file req s)
                (h.staging_file req s) req s only (h.new_names req s)))

    jsign_signer-Kept :
        SignsInPlace run
        → MakesInPlace Makes run
        → (config : JsignConfig) → Refines Makes (jsign_signer config)
    unfolding jsign_sign
    jsign_signer-Kept only makes config req s =
        checked-Kept (MadeOf Makes req s) (MayLeave (h.staging_file req s) (h.pin_file req s))
          (codes "jsign sign") (h.same_file req s) req s _ _ (check (h.same_file req s) req) refl
          (λ passed.
            Published-Kept Makes run (h.pin_file req s) (h.staging_file req s) (h.same_file req s)
              req s passed config (h.copying req s) _ makes only (h.new_names req s)
              (publish_signed-Published (LeftPin (h.pin_file req s)) (h.staging_file req s)
                req.output_path _ s
                (jsign_write-ConfinedAt run only config (h.pin_file req s) (h.copying req s) req
                  (h.staging_file req s) s (h.new_names req s))
                (h.new_names req s).staging_new))

    -- A backend in the sense of the server, where the temporary files can be removed.
    unfoldable pub osslsigncode :
        WritesOut run → MakesOut Makes run → IsTidy h → OsslConfig → Backend
    osslsigncode only makes tidy config = record {
      same_file = h.same_file;
      sign = ossl_signer config;
      made = MadeOf Makes;
      keeps = λ req s.
          Kept-tidy (MadeOf Makes req s) (h.same_file req s) req s (ossl_signer config req s)
            (MayLeave (h.staging_file req s) (h.pin_file req s))
            (λ q.
              tidy_leaves_none (h.staging_file req s) (h.pin_file req s) q (tidy req s).0
                (tidy req s).1)
            (ossl_signer-Kept only makes config req s);
    }

-- The osslsigncode backend and the jsign backend refine the abstract signer, for every request, on
-- all files and for every way in which the system calls go, where `os.CreateTemp` picks new names
-- and the tools keep their documented promises: they write the file that their last option names, and
-- no other, and what osslsigncode writes to its `-out` is made of its `-in`, and what jsign leaves is
-- made of the file that it found. They refuse what `Check` refuses, they fail and leave every file
-- as it was, or a signed file that is made of the input appears at the output path, and nothing else
-- is changed; only a staging file or a PIN file may be left, whose removal has failed too.
pub signers-Kept :
    (h : Host) (run : Runner) (Makes : Bytes → Bytes → Type 0) (ossl_config : OsslConfig)
    (jsign_config : JsignConfig)
    → SignsInPlace run
    → MakesOut Makes run
    → MakesInPlace Makes run
    → Refines h run Makes (ossl_signer h run ossl_config)
      × Refines h run Makes (jsign_signer h run jsign_config)
signers-Kept h run Makes ossl_config jsign_config only out in_place = (
  ossl_signer-Kept h run Makes (SignsInPlace-WritesOut run only) out ossl_config,
  jsign_signer-Kept h run Makes only in_place jsign_config,
)
