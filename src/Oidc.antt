-- ===== src/Oidc.antt =====
-- oidc/oidc.go: the verifier of GitHub Actions tokens.
pub mod Base64
pub mod Keys
pub mod Jwks
pub mod Freshness
pub mod Cooldown
pub mod Verify
pub mod Admission
pub mod Acceptance
