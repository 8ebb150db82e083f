-- ===== src/Signerd/Started.antt =====
-- What a daemon of cmd/signerd/main.go that starts has.
use codesign.Common.{
  ℕ, zero, suc, ◌*◌, ◌%◌, ◌^◌, ◌<◌, ◌≡◌, ◌≢◌, refl, sym, ap, ◌∙◌, Bool, true, false, List, [], ◌∷◌,
  Option, none, some, Bytes, arith, is_empty, ◌⊎◌, inl, inr,
}
use mathlib.Core.Path.{subst}
use codesign.Common.Errors.{ok_injective, Result, ok, err, ◌>>=◌, bind-eq-ok}
use codesign.Common.Integers.{pos}
use codesign.Backends.{or_default, default_token_health}
use codesign.Backends.Jsign.{new_jsign, jsign_refusal}
use codesign.Backends.Osslsigncode.{new_osslsigncode, ossl_refusal}
use codesign.Oidc.Keys.{Cache}
use codesign.Oidc.Verify.{
  Config as OidcConfig, ParseWithClaims, Weather, options_of, key_func, admitted, verify,
  new_verifier, issuer_or,
}
use codesign.Server.Construction.{Settings, new_server, default_max_body, number_or}
use codesign.Signer.{Request, check}
use codesign.Signerd.{Config, fake, bytes_per_mib, Stats, validate_config}
use codesign.Signerd.Assembly.{
  Chosen, with_osslsigncode, with_jsign, with_fake, new_fake, chosen, build_signer, signed64,
  body_bytes, github, verifier_for, new_daemon, start,
}
use codesign.Signerd.Loading.{System, load_config}
use codesign.Signerd.Ready.{
  Ready, BackendReady, for_osslsigncode, for_jsign, for_fake, IsFile, validate_config-Ready,
  verify-Ready,
}
use codesign.Text.Fold.{Tables}

-- The backend has a health probe, and refuses what `Check` refuses only.
abbrev pub IsEquipped : Bool → Chosen → Type 0
IsEquipped allow_fake (with_osslsigncode c) =
    (c.health_command ≢ [])
    × ((same_file : Bool) (req : Request) → ossl_refusal c same_file req ≡ check same_file req)
IsEquipped allow_fake (with_jsign c) =
    (c.health_command ≢ [])
    × ((same_file : Bool) (req : Request) → jsign_refusal c same_file req ≡ check same_file req)
IsEquipped allow_fake (with_fake f) = allow_fake ≡ true

-- There is no verifier where no repository may sign; a verifier parses every token.
abbrev pub VerifiesFor : Tables → List Bytes → Option OidcConfig → Type 0
VerifiesFor u allowed none = allowed ≡ []
VerifiesFor u allowed (some v) =
    (v.allowed_repositories ≡ allowed)
    × (v.issuer ≢ [])
    × ((parse : ParseWithClaims) (w : Weather) (token : Bytes) (c : Cache)
        → verify u parse v w token c ≡ admitted u v (parse (options_of v) token (key_func w) c))

pub record Started (u : Tables) (stats : Stats) (allow_fake : Bool) (sys : System) (path : Bytes)
    (daemon : Settings Chosen OidcConfig) : Type 0 where
  pub config : Config
  pub loaded : load_config sys path ≡ ok config
  pub ready : Ready u stats allow_fake config
  pub limit : ℕ
  pub limit_is : daemon.max_body ≡ pos limit
  pub positive : 0 < limit
  pub equipped : IsEquipped allow_fake daemon.signer
  pub verifies : VerifiesFor u config.allowed_repositories daemon.verifier
  pub same_loopback : daemon.allow_unauthenticated_loopback ≡ config.allow_unauthenticated_loopback

fits_word : (x : ℕ) → x < 2 ^ 63 → x % 2 ^ 64 ≡ x
fits_word x h = omega (arith, h)

signed_word : (x : ℕ) → x < 2 ^ 63 → signed64 x ≡ pos x
signed_word x h = ground (arith, h)

default_or : (m : ℕ) → (limit : ℕ) × (number_or default_max_body (pos m) ≡ pos limit) × (0 < limit)
default_or zero = (default_max_body, refl, omega arith)
default_or (suc m) = (suc m, refl, omega arith)

body_limit :
    (n : ℕ)
    → n * bytes_per_mib < 2 ^ 63
    → (limit : ℕ) × (number_or default_max_body (body_bytes (pos n)) ≡ pos limit) × (0 < limit)
unfolding body_bytes
body_limit n fits =
    let limit = default_or (n * bytes_per_mib) in
    (
      limit.0,
      ap (λ x. number_or default_max_body (signed64 x)) (fits_word (n * bytes_per_mib) fits)
          ∙ ap (number_or default_max_body) (signed_word (n * bytes_per_mib) fits)
          ∙ limit.1,
      limit.2,
    )

check_passes_on : (r : Result (Unit {0})) → (r >>= λ _. ok tt) ≡ r
check_passes_on (ok _) = refl
check_passes_on (err e) = refl

named_probe :
    (command : List Bytes) (path : Bytes)
    → path ≢ []
    → or_default command (default_token_health path) ≢ []
unfolding default_token_health
named_probe [] [] named = absurd (named refl)
named_probe [] (c ∷ path) named = λ h. cc
named_probe (arg ∷ command) path named = λ h. cc

own_probe :
    (command : List Bytes) (path : Bytes)
    → command ≢ []
    → or_default command (default_token_health path) ≢ []
own_probe [] path given = absurd (given refl)
own_probe (arg ∷ command) path given = λ h. cc

is_given : (s : Bytes) → s ≢ [] → is_empty s ≡ false
is_given [] h = absurd (h refl)
is_given (c ∷ s) h = refl

fake_chosen :
    (allow_fake : Bool) (config : Config)
    → allow_fake ≡ true
    → chosen allow_fake config (some fake) ≡ ok (with_fake new_fake)
fake_chosen true config h = refl
fake_chosen false config h = cc

chosen-IsEquipped :
    (u : Tables) (stats : Stats) (allow_fake : Bool) (config : Config) (backend : Chosen)
    → BackendReady u stats allow_fake config
    → build_signer u allow_fake config ≡ ok backend
    → IsEquipped allow_fake backend
unfolding build_signer new_osslsigncode new_jsign
chosen-IsEquipped u stats allow_fake config backend (for_osslsigncode is library cert) h =
    subst (IsEquipped allow_fake) (ok_injective (sym (ap (chosen allow_fake config) is) ∙ h)) (
      named_probe config.health_command config.pkcs11_module library.named,
      λ same_file req.
          ap (λ x. check same_file req >>= λ _. x)
            (rw (is_given config.pkcs11_module library.named, is_given config.cert_file cert.named)
              refl)
          ∙ check_passes_on (check same_file req),
    )
chosen-IsEquipped u stats allow_fake config backend (for_jsign is cert probe) h =
    subst (IsEquipped allow_fake) (ok_injective (sym (ap (chosen allow_fake config) is) ∙ h)) (
      either_probe config.health_command config.pkcs11_module probe,
      λ same_file req.
          ap (λ x. check same_file req >>= λ _. x) (rw (is_given config.cert_file cert.named) refl)
          ∙ check_passes_on (check same_file req),
    )
  where
    either_probe :
        (command : List Bytes) (path : Bytes)
        → (IsFile stats path ⊎ (command ≢ []))
        → or_default command (default_token_health path) ≢ []
    either_probe command path (inl file) = named_probe command path file.named
    either_probe command path (inr given) = own_probe command path given
chosen-IsEquipped u stats allow_fake config backend (for_fake is allowed) h =
    subst (IsEquipped allow_fake)
      (ok_injective
        (sym (ap (chosen allow_fake config) is ∙ fake_chosen allow_fake config allowed) ∙ h))
      allowed

verifier-VerifiesFor :
    (u : Tables) (stats : Stats) (allow_fake : Bool) (config : Config) (allowed : List Bytes)
    → validate_config u stats allow_fake config ≡ ok tt
    → config.allowed_repositories ≡ allowed
    → VerifiesFor u allowed (verifier_for allowed (github config))
unfolding new_verifier
verifier-VerifiesFor u stats allow_fake config [] passes is = refl
verifier-VerifiesFor u stats allow_fake config (repository ∷ allowed) passes is = (
  is,
  issuer_given config.issuer,
  λ parse w token c.
      verify-Ready u stats allow_fake config (issuer_or config.issuer) parse w token c passes
        (λ none_allowed. cc (sym none_allowed ∙ is)),
)
  where
    issuer_given : (issuer : Bytes) → issuer_or issuer ≢ []
    issuer_given [] = λ h. cc
    issuer_given (c ∷ issuer) = λ h. cc

-- A daemon that `run` starts to serve has loaded a configuration that passes all checks of
-- `validateConfig`. Its upload limit is above zero, though the product with the bytes of a MiB is
-- one of int64. Its backend has a command for the health probe, and `Sign` refuses what `Check`
-- refuses and nothing for want of a setting; the fake backend stands only where the environment
-- allows it. There is a verifier exactly where some repository may sign; it has that allowlist and
-- an issuer, and it parses every token. The loopback rule is the configured one.
pub start-Started :
    (u : Tables) (stats : Stats) (allow_fake : Bool) (temp_dir : Bytes) (sys : System)
    (path : Bytes) (daemon : Settings Chosen OidcConfig)
    → start u stats allow_fake temp_dir sys path ≡ ok daemon
    → Started u stats allow_fake sys path daemon
unfolding start new_daemon new_server
start-Started u stats allow_fake temp_dir sys path daemon h =
    let loaded = bind-eq-ok (load_config sys path) _ h in
    let checked = bind-eq-ok (validate_config u stats allow_fake loaded.0) _ loaded.2 in
    let built = bind-eq-ok (build_signer u allow_fake loaded.0) _ checked.2 in
    let ready = validate_config-Ready u stats allow_fake loaded.0 checked.1 in
    let limit = body_limit ready.mebibytes ready.fits in
    let same = ok_injective built.2 in
    record {
      config = loaded.0;
      loaded = loaded.1;
      ready = ready;
      limit = limit.0;
      limit_is =
          ap (λ d. d.max_body) (sym same)
          ∙ ap (λ m. number_or default_max_body (body_bytes m)) ready.limit_is
          ∙ limit.1;
      positive = limit.2;
      equipped =
          subst (λ d. IsEquipped allow_fake d.signer) same
            (chosen-IsEquipped u stats allow_fake loaded.0 built.0 ready.backend built.1);
      verifies =
          subst (λ d. VerifiesFor u loaded.0.allowed_repositories d.verifier) same
            (verifier-VerifiesFor u stats allow_fake loaded.0 loaded.0.allowed_repositories
              checked.1 refl);
      same_loopback = ap (λ d. d.allow_unauthenticated_loopback) (sym same);
    }
