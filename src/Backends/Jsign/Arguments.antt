-- ===== src/Backends/Jsign/Arguments.antt =====
-- What jsign is told.
use codesign.Common.{◌≡◌, ◌≢◌, refl, ◌∙◌, [], ◌∷◌, ◌++◌, List, some, Bytes, codes, equal}
use codesign.Backends.{fallback, flag}
use codesign.Backends.Arguments.{option_of, option_of-flag_behind}
use codesign.Backends.Jsign.{JsignConfig, pass_flag, jsign_options}
use codesign.Signer.{Request}

module _ (config : JsignConfig) (pin_path : Bytes) (req : Request) (staging : Bytes) where
  abbrev about : List Bytes
  about =
      flag (codes "--name") (fallback req.name config.name)
      ++ flag (codes "--url") (fallback req.url config.url)

  pub told_pin :
      pin_path ≢ []
      → option_of (codes "--storepass") (jsign_options config pin_path req ++ (staging ∷ []))
        ≡ some (codes "file:" ++ pin_path)
  unfolding jsign_options option_of equal
  told_pin named =
      option_of-flag_behind (codes "--storepass") (codes "--alias") config.alias
        (pass_flag pin_path ++ about) (staging ∷ []) refl
      ∙ found pin_path named
    where
      found :
          (path : Bytes)
          → path ≢ []
          → option_of (codes "--storepass") ((pass_flag path ++ about) ++ (staging ∷ []))
            ≡ some (codes "file:" ++ path)
      found [] k = absurd (k refl)
      found (c ∷ path) k = refl
