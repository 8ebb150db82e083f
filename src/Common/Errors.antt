-- ===== src/Common/Errors.antt =====
-- Go's `error` values: the sentinels of the packages, what the environment reports, and `%w`.
use mathlib.Core.Bool.{Bool, true, false}
use mathlib.Core.Logic.{◌⊎◌, inl, inr, ◌↔◌}
use mathlib.Core.Path.{◌≡◌, refl}
use codesign.Common.Tests.{Bytes}

-- The package-level `errors.New` values.
pub data Sentinel : Type 0 where
  -- server
  no_verifier no_token not_signable bad_metadata : Sentinel
  -- oidc
  empty_allowlist no_audience repo_not_allowed no_repository no_key_id : Sentinel
  unknown_key_id stale_keys bad_discovery jwks_host cooldown unexpected_status : Sentinel
  -- signer and backends
  nil_request same_path no_token_output no_pkcs11_module no_cert_file no_health_command : Sentinel
  -- client
  no_url insecure_url half_key_pair empty_oidc no_actions_oidc invalid_header sign_failed : Sentinel
  no_certs_in_pem no_default_transport : Sentinel
  -- codesign
  no_files one_output : Sentinel
  -- signerd
  unknown_backend pkcs11_module_required cert_file_required no_jsign_probe : Sentinel
  fake_disabled bad_max_body audience_required not_regular_file : Sentinel

-- What comes from outside the program, by the distinctions that the program makes.
pub data Fault : Type 0 where
  canceled deadline_exceeded not_exist max_bytes server_closed : Fault
  certificate_verification record_header alert unknown_authority hostname certificate_invalid :
      Fault
  other : Bytes → Fault

pub data Error : Type 0 where
  sentinel : Sentinel → Error
  fault : Fault → Error
  wrap : Bytes → Error → Error  -- `fmt.Errorf` with one `%w`

pub data Result {ℓ} (A : Type ℓ) : Type ℓ where
  ok : A → Result A
  err : Error → Result A

-- The next step of a function that returns at the first error.
infixl 5 ◌>>=◌
abbrev pub ◌>>=◌ {ℓ κ} : {A : Type ℓ} {B : Type κ} → Result A → (A → Result B) → Result B
err e >>= step = err e
ok x >>= step = step x

-- An error is passed on with a note.
abbrev pub annotate {ℓ} : {A : Type ℓ} → Bytes → Result A → Result A
annotate note (err e) = err (wrap note e)
annotate note (ok x) = ok x

-- The innermost error, which `errors.Is` and `errors.As` reach along `Unwrap`.
unfoldable pub cause : Error → Error
cause (sentinel s) = sentinel s
cause (fault f) = fault f
cause (wrap _ e) = cause e

unfoldable pub is_ok {ℓ} : {A : Type ℓ} → Result A → Bool
is_ok (ok _) = true
is_ok (err _) = false

-- Where two steps succeed, so does the first.
pub bind-eq-ok {ℓ κ} :
    {A : Type ℓ} {B : Type κ} (start : Result A) (step : A → Result B) {y : B}
    → (start >>= step) ≡ ok y
    → (x : A) × (start ≡ ok x) × (step x ≡ ok y)
bind-eq-ok (err _) step failed = cc
bind-eq-ok (ok x) step done = (x, refl, done)

pub Result-cases {ℓ} :
    {A : Type ℓ} (r : Result A) → ((a : A) × (r ≡ ok a)) ⊎ ((e : Error) × (r ≡ err e))
Result-cases (ok a) = inl (a, refl)
Result-cases (err e) = inr (e, refl)

-- Two checks in a row pass if both do.
pub both_ok : (x y : Result (Unit {0})) → ((x >>= λ _. y) ≡ ok tt) ↔ ((x ≡ ok tt) × (y ≡ ok tt))
both_ok (ok _) y = (λ h. (refl, h), λ h. h.1)
both_ok (err e) y = (λ h. cc, λ h. cc)

pub err-ne-ok {ℓ} : {A : Type ℓ} {e : Error} {a : A} → ¬ (◌≡◌ {A = Result A} (err e) (ok a))
err-ne-ok h = cc

pub bind_iff {ℓ κ} :
    {A : Type ℓ} {B : Type κ} (start : Result A) (step : A → Result B) (y : B)
    → ((start >>= step) ≡ ok y) ↔ ((x : A) × (start ≡ ok x) × (step x ≡ ok y))
bind_iff start step y = (bind-eq-ok start step, λ h. rw h.1 h.2)

pub annotate_iff {ℓ} :
    {A : Type ℓ} (note : Bytes) (r : Result A) (x : A) → (annotate note r ≡ ok x) ↔ (r ≡ ok x)
annotate_iff note (err e) x = (λ h. cc, λ h. cc)
annotate_iff note (ok y) x = (λ h. h, λ h. h)

pub ok_injective {ℓ} : {A : Type ℓ} {a b : A} → ◌≡◌ {A = Result A} (ok a) (ok b) → a ≡ b
ok_injective h = cc

pub err_injective {ℓ} : {A : Type ℓ} {e f : Error} → ◌≡◌ {A = Result A} (err e) (err f) → e ≡ f
err_injective h = cc
