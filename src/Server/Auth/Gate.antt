-- ===== src/Server/Auth/Gate.antt =====
-- Who passes `authenticate`.
use codesign.Common.{
  ◌≡◌, ◌⊎◌, ◌↔◌, inl, inr, true, ◌&&◌, some, arith, Bytes, codes, Bool-cases, Option-cases,
}
use codesign.Common.Errors.{Result, ok, err}
use codesign.Server.Headers.{bearer_token}
use codesign.Server.Loopback.{Net, is_loopback}
use codesign.Server.Auth.{Verifier, Config, Caller, described, with_bearer, authenticate}
use codesign.Text.Fold.{Tables}

described_ok :
    {S : Type 0} (p : S × Result Bytes) (who : Bytes) → ((described p).1 ≡ ok who) ↔ (p.1 ≡ ok who)
described_ok (s, ok r) who = (λ e. e, λ e. e)
described_ok (s, err e) who = (λ h. cc, λ h. cc)

module _ {S : Type 0} (u : Tables) (net : Net) (config : Config S) (req : Caller) (s : S) where
  -- The peer skips the token check: the operator allowed it, and the peer is on loopback.
  abbrev pub Skips : Type 0
  Skips = (config.allow_unauthenticated_loopback ≡ true) × (is_loopback net req.remote_addr ≡ true)

  -- The configured verifier accepted the request's bearer token as one of this repository.
  pub record Vouched (repository : Bytes) : Type 0 where
    pub token : Bytes
    pub verifier : Verifier S
    pub carries : bearer_token u req.authorization ≡ some token
    pub configured : config.verifier ≡ some verifier
    pub accepts : (verifier.verify s token).1 ≡ ok repository

  abbrev LetIn : Bytes → Type 0
  LetIn who = (Skips × (who ≡ codes "loopback")) ⊎ ((¬ Skips) × Vouched who)

  skip_test :
      (config.allow_unauthenticated_loopback && is_loopback net req.remote_addr ≡ true) ↔ Skips
  skip_test = (λ h. ground arith, λ h. ground arith)

  bearer_ok :
      (who : Bytes)
      → (with_bearer config.verifier s (bearer_token u req.authorization)).1 ≡ ok who
      → Vouched who
  bearer_ok who h = elim (Option-cases (bearer_token u req.authorization)) [
    | inl nothing ↦ cc (rw nothing at h)
    | inr (token, carries) ↦ elim (Option-cases config.verifier) [
      | inl nobody ↦ cc (rw (carries, nobody) at h)
      | inr (v, configured) ↦ record {
        token = token;
        verifier = v;
        carries = carries;
        configured = configured;
        accepts = (described_ok (v.verify s token) who).0 (rw (carries, configured) at h);
      }
    ]
  ]

  authenticate-LetIn : (who : Bytes) → (authenticate u net config req s).1 ≡ ok who → LetIn who
  unfolding authenticate
  authenticate-LetIn who h =
      elim (Bool-cases (config.allow_unauthenticated_loopback && is_loopback net req.remote_addr)) [
        | inl skips ↦ inl (skip_test.0 skips, cc (rw skips at h))
        | inr asked ↦ inr (λ k. cc (skip_test.1 k, asked), bearer_ok who (rw asked at h))
      ]

  LetIn-authenticate : (who : Bytes) → LetIn who → (authenticate u net config req s).1 ≡ ok who
  unfolding authenticate
  LetIn-authenticate who (inl (skips, e)) = rw (skip_test.1 skips, e)
  LetIn-authenticate who (inr (asked, v)) =
      elim (Bool-cases (config.allow_unauthenticated_loopback && is_loopback net req.remote_addr)) [
        | inl skips ↦ absurd (asked (skip_test.0 skips))
        | inr no_skip ↦
            rw (no_skip, v.carries, v.configured)
              ((described_ok (v.verifier.verify s v.token) who).1 v.accepts)
      ]

  -- A caller is let in exactly on a loopback skip that the configuration allows, and is then called
  -- "loopback", or with a bearer token that the configured verifier accepts, and is then called by
  -- the repository of the token.
  pub authenticate_iff : (who : Bytes) → ((authenticate u net config req s).1 ≡ ok who) ↔ LetIn who
  authenticate_iff who = (authenticate-LetIn who, LetIn-authenticate who)
