-- ===== src/Backends/Osslsigncode/Arguments.antt =====
-- What osslsigncode is told.
use codesign.Common.{◌≡◌, ◌≢◌, refl, ◌∙◌, false, [], ◌∷◌, ◌++◌, List, some, Bytes, codes, equal}
use codesign.Backends.{fallback, flag}
use codesign.Backends.Arguments.{option_of, tail_of, option_of-flag_behind}
use codesign.Backends.Osslsigncode.{OsslConfig, ossl_options, ossl_args}
use codesign.Signer.{Request}

module _ (config : OsslConfig) (pin_path : Bytes) (req : Request) (staging : Bytes) where
  abbrev name : Bytes
  name = fallback req.name config.name

  abbrev page : Bytes
  page = fallback req.url config.url

  abbrev input : List Bytes
  input = codes "-in" ∷ req.input_path ∷ []

  abbrev out : List Bytes
  out = codes "-out" ∷ staging ∷ []

  abbrev about : List Bytes
  about = flag (codes "-n") name ++ (flag (codes "-i") page ++ input)

  -- Past the optional flags to the last two.
  past_about :
      (key : Bytes)
      → equal (codes "-n") key ≡ false
      → equal (codes "-i") key ≡ false
      → option_of key (about ++ out) ≡ option_of key (input ++ out)
  past_about key not_n not_i =
      option_of-flag_behind key (codes "-n") name (flag (codes "-i") page ++ input) out not_n
      ∙ option_of-flag_behind key (codes "-i") page input out not_i

  past_flags :
      (key : Bytes)
      → equal (codes "-readpass") key ≡ false
      → equal (codes "-n") key ≡ false
      → equal (codes "-i") key ≡ false
      → option_of key ((flag (codes "-readpass") pin_path ++ about) ++ out)
        ≡ option_of key (input ++ out)
  past_flags key not_pass not_n not_i =
      option_of-flag_behind key (codes "-readpass") pin_path about out not_pass
      ∙ past_about key not_n not_i

  pub told_input :
      option_of (codes "-in") (tail_of (ossl_args config pin_path req staging))
      ≡ some req.input_path
  unfolding ossl_options option_of equal
  told_input = past_flags (codes "-in") refl refl refl

  pub told_output :
      option_of (codes "-out") (tail_of (ossl_args config pin_path req staging)) ≡ some staging
  unfolding ossl_options option_of equal
  told_output = past_flags (codes "-out") refl refl refl

  pub told_pin :
      pin_path ≢ []
      → option_of (codes "-readpass") (tail_of (ossl_args config pin_path req staging))
        ≡ some pin_path
  unfolding ossl_options option_of equal
  told_pin named = found pin_path named
    where
      found :
          (path : Bytes)
          → path ≢ []
          → option_of (codes "-readpass") ((flag (codes "-readpass") path ++ about) ++ out)
            ≡ some path
      found [] k = absurd (k refl)
      found (c ∷ path) k = refl
