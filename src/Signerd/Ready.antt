-- ===== src/Signerd/Ready.antt =====
-- What the daemon can rely on once its configuration has passed.
use codesign.Common.{
  ℕ, ◌*◌, ◌^◌, ◌<◌, ◌≡◌, ◌≢◌, refl, ap, ◌⊎◌, inl, inr, Bool, true, false, ◌||◌, not, List, [], ◌∷◌,
  Option, none, some, arith, Bytes, codes, is_empty,
}
use codesign.Common.Integers.{ℤ, pos, negsuc}
use codesign.Common.Errors.{
  sentinel, pkcs11_module_required, cert_file_required, no_jsign_probe, fake_disabled, bad_max_body,
  audience_required, Error, Result, ok, err, both_ok,
}
use codesign.Oidc.Keys.{Cache}
use codesign.Oidc.Verify.{ParseWithClaims, Weather, options_of, key_func, admitted, verify}
use codesign.Signerd.{
  Config, Backend, osslsigncode, jsign, fake, backend_of, Stats, regular, bytes_per_mib, is_limit,
  demand, validate_limits, validate_ossl, probe_file, validate_jsign, validate_backend,
  validate_config,
}
use codesign.Text.Fold.{Tables}
use codesign.Text.Space.{trim_space}

-- A path that is named and is a regular file.
pub record IsFile (stats : Stats) (path : Bytes) : Type 0 where
  pub named : path ≢ []
  pub is_regular : stats path ≡ ok true

-- What each backend needs.
pub data BackendReady (u : Tables) (stats : Stats) (allow_fake : Bool) (config : Config)
    : Type 0 where
  for_osslsigncode :
      backend_of u config.backend ≡ some osslsigncode
      → IsFile stats config.pkcs11_module
      → IsFile stats config.cert_file
      → BackendReady u stats allow_fake config
  for_jsign :
      backend_of u config.backend ≡ some jsign
      → IsFile stats config.cert_file
      → (IsFile stats config.pkcs11_module ⊎ (config.health_command ≢ []))
      → BackendReady u stats allow_fake config
  for_fake :
      backend_of u config.backend ≡ some fake
      → allow_fake ≡ true
      → BackendReady u stats allow_fake config

pub record Ready (u : Tables) (stats : Stats) (allow_fake : Bool) (config : Config) : Type 0 where
  pub mebibytes : ℕ
  pub limit_is : config.max_body_mib ≡ pos mebibytes
  pub fits : mebibytes * bytes_per_mib < 2 ^ 63
  pub audience : config.allowed_repositories ≢ [] → trim_space config.audience ≢ []
  pub backend : BackendReady u stats allow_fake config

demand_ok : (b : Bool) (e : Error) → demand b e ≡ ok tt → b ≡ true
demand_ok true e h = refl
demand_ok false e h = cc

not_empty {ℓ} : {A : Type ℓ} (s : List A) → not (is_empty s) ≡ true → s ≢ []
not_empty [] h = λ e. cc
not_empty (c ∷ s) h = λ e. cc

full {ℓ} : {A : Type ℓ} (s : List A) → s ≢ [] → is_empty s ≡ false
full [] k = absurd (k refl)
full (d ∷ s) k = refl

regular_ok : (path field : Bytes) (x : Result Bool) → regular path field x ≡ ok tt → x ≡ ok true
regular_ok path field (err e) h = cc
regular_ok path field (ok true) h = refl
regular_ok path field (ok false) h = cc

limit_ok : (m : ℤ) → is_limit m ≡ true → (n : ℕ) × (m ≡ pos n) × (n * bytes_per_mib < 2 ^ 63)
limit_ok (negsuc n) h = cc
limit_ok (pos n) h = (n, refl, ground arith)

no_empty_allowlist :
    {A : Type 0} (allowed : List A) (audience : Bytes)
    → (is_empty allowed || not (is_empty audience)) ≡ true
    → allowed ≢ []
    → audience ≢ []
no_empty_allowlist [] audience h some_allowed = absurd (some_allowed refl)
no_empty_allowlist (c ∷ allowed) audience h some_allowed = not_empty audience h

validate_ossl_ok :
    (stats : Stats) (config : Config)
    → validate_ossl stats config ≡ ok tt
    → IsFile stats config.pkcs11_module × IsFile stats config.cert_file
unfolding validate_ossl
validate_ossl_ok stats config h =
    let (module_named, rest) = (both_ok _ _).0 h in
    let (module_file, rest') = (both_ok _ _).0 rest in
    let (cert_named, cert_file) = (both_ok _ _).0 rest' in
    (
      record {
        named =
            not_empty config.pkcs11_module
              (demand_ok _ (sentinel pkcs11_module_required) module_named);
        is_regular =
            regular_ok config.pkcs11_module (codes "pkcs11_module") (stats config.pkcs11_module)
              module_file;
      },
      record {
        named = not_empty config.cert_file (demand_ok _ (sentinel cert_file_required) cert_named);
        is_regular =
            regular_ok config.cert_file (codes "cert_file") (stats config.cert_file) cert_file;
      },
    )

probe_ok :
    (stats : Stats) (path : Bytes) (command : List Bytes)
    → (not (is_empty path) || not (is_empty command)) ≡ true
    → probe_file stats path ≡ ok tt
    → IsFile stats path ⊎ (command ≢ [])
probe_ok stats [] command h file = inr (not_empty command h)
probe_ok stats (c ∷ path) command h file = inl (record {
  named = not_empty (c ∷ path) refl;
  is_regular = regular_ok (c ∷ path) (codes "pkcs11_module") (stats (c ∷ path)) file;
})

validate_jsign_ok :
    (stats : Stats) (config : Config)
    → validate_jsign stats config ≡ ok tt
    → IsFile stats config.cert_file
      × (IsFile stats config.pkcs11_module ⊎ (config.health_command ≢ []))
unfolding validate_jsign
validate_jsign_ok stats config h =
    let (cert_named, rest) = (both_ok _ _).0 h in
    let (cert_file, rest') = (both_ok _ _).0 rest in
    let (probe, file) = (both_ok _ _).0 rest' in
    (
      record {
        named = not_empty config.cert_file (demand_ok _ (sentinel cert_file_required) cert_named);
        is_regular =
            regular_ok config.cert_file (codes "cert_file") (stats config.cert_file) cert_file;
      },
      probe_ok stats config.pkcs11_module config.health_command
          (demand_ok _ (sentinel no_jsign_probe) probe) file,
    )

validate_backend-BackendReady :
    (u : Tables) (stats : Stats) (allow_fake : Bool) (config : Config) (b : Option Backend)
    → backend_of u config.backend ≡ b
    → validate_backend stats allow_fake config b ≡ ok tt
    → BackendReady u stats allow_fake config
validate_backend-BackendReady u stats allow_fake config none is_b h = cc
validate_backend-BackendReady u stats allow_fake config (some osslsigncode) is_b h =
    let (library, cert) = validate_ossl_ok stats config h in for_osslsigncode is_b library cert
validate_backend-BackendReady u stats allow_fake config (some jsign) is_b h =
    let (cert, probe) = validate_jsign_ok stats config h in for_jsign is_b cert probe
validate_backend-BackendReady u stats allow_fake config (some fake) is_b h =
    for_fake is_b (demand_ok _ (sentinel fake_disabled) h)

-- A configuration that passes has an upload limit whose bytes fit an int64, an audience that is not
-- blank if any repository may sign, and what its backend needs: osslsigncode a module and a chain
-- that are regular files; jsign a chain, and a module or a health command of its own; the fake one
-- leave of the environment.
pub validate_config-Ready :
    (u : Tables) (stats : Stats) (allow_fake : Bool) (config : Config)
    → validate_config u stats allow_fake config ≡ ok tt
    → Ready u stats allow_fake config
unfolding validate_config validate_limits
validate_config-Ready u stats allow_fake config h =
    let (limits, backend) = (both_ok _ _).0 h in
    let (limit, audience) = (both_ok _ _).0 limits in
    let (n, is_n, fits) =
      limit_ok config.max_body_mib (demand_ok _ (sentinel bad_max_body) limit) in
    record {
      mebibytes = n;
      limit_is = is_n;
      fits = fits;
      audience =
          no_empty_allowlist config.allowed_repositories (trim_space config.audience)
            (demand_ok _ (sentinel audience_required) audience);
      backend = validate_backend-BackendReady u stats allow_fake config _ refl backend;
    }

abbrev pub oidc_config : Bytes → Config → codesign.Oidc.Verify.Config
oidc_config issuer config = record {
  issuer = issuer;
  audience = config.audience;
  allowed_repositories = config.allowed_repositories;
}

-- The verifier that `newDaemon` makes of such a configuration parses every token: it never refuses
-- one because of its own configuration.
pub verify-Ready :
    (u : Tables) (stats : Stats) (allow_fake : Bool) (config : Config) (issuer : Bytes)
    (parse : ParseWithClaims) (w : Weather) (token : Bytes) (c : Cache)
    → validate_config u stats allow_fake config ≡ ok tt
    → config.allowed_repositories ≢ []
    → verify u parse (oidc_config issuer config) w token c
      ≡ admitted u
          (oidc_config issuer config)
          (parse (options_of (oidc_config issuer config)) token (key_func w) c)
unfolding verify trim_space
verify-Ready u stats allow_fake config issuer parse w token c h some_allowed =
    rw (full config.allowed_repositories some_allowed, full config.audience named) refl
  where
    named : config.audience ≢ []
    named empty =
        (validate_config-Ready u stats allow_fake config h).audience some_allowed
          (ap trim_space empty)
