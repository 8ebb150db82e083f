-- ===== src/Signerd/Healthy.antt =====
-- What a healthy report of the daemon's signer means, where the probe is the default one.
use codesign.Common.{
  ℕ, ◌≡◌, ◌≢◌, refl, ap, ◌∙◌, Bool, true, false, [], ◌∷◌, List, Option, none, some, Bytes, codes,
  if◌then◌else◌,
}
use mathlib.Core.Path.{subst}
use codesign.Common.Errors.{
  Error, Result, ok, err, err-ne-ok, ok_injective, sentinel, fake_disabled,
}
use codesign.Common.Store.{Store}
use codesign.Backends.{
  Runner, or_default, default_token_health, cert_object_mark, noted, after_version, health_of,
}
use codesign.Backends.Jsign.{new_jsign, jsign_health}
use codesign.Backends.Listing.{run_health-default_token_health}
use codesign.Backends.Osslsigncode.{new_osslsigncode, ossl_health}
use codesign.Signer.Fake.{health}
use codesign.Signerd.{Config, Backend, osslsigncode, jsign, fake, backend_of}
use codesign.Signerd.Assembly.{
  Chosen, with_osslsigncode, with_jsign, with_fake, new_fake, chosen, build_signer,
}
use codesign.Text.Contains.{contains}
use codesign.Text.Fold.{Tables}

abbrev fake_result : Option Error → Result (Unit {0})
fake_result none = ok tt
fake_result (some e) = err e

-- `Health` of the signer that runs.
unfoldable pub signer_health : Runner → Chosen → Store → Store × Result (Unit {0})
signer_health run (with_osslsigncode c) s = ossl_health run c s
signer_health run (with_jsign c) s = jsign_health run c s
signer_health run (with_fake f) s = (s, fake_result (health f))

-- The tool has told its version, and then the listing of the module's certificates has shown one.
pub record ShowsCertificate (run : Runner) (tool library : Bytes) (s : Store) : Type 0 where
  pub version : Bytes
  pub runs : (run tool (codes "--version" ∷ []) s).1 ≡ ok version
  pub output : Bytes
  pub lists :
      (run
        (codes "pkcs11-tool")
        (codes "--module" ∷ library ∷ codes "--list-objects" ∷ codes "--type" ∷ codes "cert" ∷ [])
        (run tool (codes "--version" ∷ []) s).0).1
      ≡ ok output
  pub shown : contains cert_object_mark output ≡ true

noted_ok : (note : Bytes) (p : Store × Result (Unit {0})) → (noted note p).1 ≡ ok tt → p.1 ≡ ok tt
noted_ok note (s, ok _) h = refl
noted_ok note (s, err e) h = absurd (err-ne-ok h)

module _ (note : Bytes) (run : Runner) (tool : Bytes) (s : Store) where
  after_version-ShowsCertificate :
      (c : ℕ) (library : Bytes) (p : Store × Result Bytes)
      → run tool (codes "--version" ∷ []) s ≡ p
      → (after_version note run (default_token_health (c ∷ library)) p).1 ≡ ok tt
      → ShowsCertificate run tool (c ∷ library) s
  after_version-ShowsCertificate c library (t, err e) is_p h = absurd (err-ne-ok h)
  after_version-ShowsCertificate c library (t, ok version) is_p h =
      let (output, lists, shown) =
        run_health-default_token_health run c library t (noted_ok note _ h) in
      record {
        version = version;
        runs = ap (λ p. p.1) is_p;
        output = output;
        lists =
            ap
              (λ p.
                (run (codes "pkcs11-tool")
                  (codes "--module"
                    ∷ (c ∷ library)
                    ∷ codes "--list-objects"
                    ∷ codes "--type"
                    ∷ codes "cert"
                    ∷ [])
                  p.0).1)
              is_p
            ∙ lists;
        shown = shown;
      }

  health_of-ShowsCertificate :
      (given : List Bytes) (library : Bytes)
      → given ≡ []
      → library ≢ []
      → (health_of note run tool (or_default given (default_token_health library)) s).1 ≡ ok tt
      → ShowsCertificate run tool library s
  unfolding health_of
  health_of-ShowsCertificate given [] none_given named h = absurd (named refl)
  health_of-ShowsCertificate [] (c ∷ library) none_given named h =
      after_version-ShowsCertificate c library _ refl h
  health_of-ShowsCertificate (arg ∷ given) (c ∷ library) none_given named h =
      absurd (a_command none_given)
    where
      a_command : ¬ (arg ∷ given ≡ [])
      a_command k = cc

-- What stands behind the report of each signer.
abbrev pub HealthyBy : Runner → Bool → Bytes → Store → Chosen → Type 0
HealthyBy run allow_fake library s (with_osslsigncode c) = ShowsCertificate run c.command library s
HealthyBy run allow_fake library s (with_jsign c) = ShowsCertificate run c.command library s
HealthyBy run allow_fake library s (with_fake f) = allow_fake ≡ true

module _ (run : Runner) (allow_fake : Bool) (config : Config) (s : Store)
    (none_given : config.health_command ≡ []) (named : config.pkcs11_module ≢ []) where
  chosen-HealthyBy :
      (b : Option Backend) (backend : Chosen)
      → chosen allow_fake config b ≡ ok backend
      → (signer_health run backend s).1 ≡ ok tt
      → HealthyBy run allow_fake config.pkcs11_module s backend
  unfolding signer_health ossl_health jsign_health new_osslsigncode new_jsign
  chosen-HealthyBy none backend built h = absurd (err-ne-ok built)
  chosen-HealthyBy (some osslsigncode) backend built h =
      subst
        (λ x. (signer_health run x s).1 ≡ ok tt → HealthyBy run allow_fake config.pkcs11_module s x)
        (ok_injective built)
        (health_of-ShowsCertificate (codes "osslsigncode health") run _ s config.health_command
          config.pkcs11_module none_given named)
        h
  chosen-HealthyBy (some jsign) backend built h =
      subst
        (λ x. (signer_health run x s).1 ≡ ok tt → HealthyBy run allow_fake config.pkcs11_module s x)
        (ok_injective built)
        (health_of-ShowsCertificate (codes "jsign health") run _ s config.health_command
          config.pkcs11_module none_given named)
        h
  chosen-HealthyBy (some fake) backend built h = allowed allow_fake refl built
    where
      allowed :
          (allow : Bool)
          → allow_fake ≡ allow
          → (if allow then ok (with_fake new_fake) else err (sentinel fake_disabled)) ≡ ok backend
          → HealthyBy run allow_fake config.pkcs11_module s backend
      allowed true is k =
          subst (HealthyBy run allow_fake config.pkcs11_module s) (ok_injective k) is
      allowed false is k = absurd (err-ne-ok k)

-- A signer that the daemon has built of a configuration with a PKCS#11 module and no health command
-- of its own reports to be healthy only if its tool has told its version and then a listing of that
-- module's certificates has shown one, unless it is the fake one, which the environment must allow.
pub signer_health-HealthyBy :
    (u : Tables) (run : Runner) (allow_fake : Bool) (config : Config) (backend : Chosen) (s : Store)
    → config.health_command ≡ []
    → config.pkcs11_module ≢ []
    → build_signer u allow_fake config ≡ ok backend
    → (signer_health run backend s).1 ≡ ok tt
    → HealthyBy run allow_fake config.pkcs11_module s backend
unfolding build_signer
signer_health-HealthyBy u run allow_fake config backend s none_given named built =
    chosen-HealthyBy run allow_fake config s none_given named (backend_of u config.backend) backend
      built
