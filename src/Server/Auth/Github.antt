-- ===== src/Server/Auth/Github.antt =====
-- The server's gate in front of the verifier of package oidc, as `newDaemon` wires them.
use codesign.Common.{ℕ, false, ◌≡◌, refl, inl, inr, some, Bytes}
use codesign.Common.Options.{some_injective}
use codesign.Common.Errors.{Result, ok, err}
use codesign.Oidc.Admission.{IsSound, Verified, verify-Verified}
use codesign.Oidc.Freshness.{Ordered, Evolves}
use codesign.Oidc.Keys.{PublicKey, Cache}
use codesign.Oidc.Verify.{
  Config as OidcConfig, Claims, ParseWithClaims, Weather, new_verifier, verify,
}
use codesign.Server.Auth.{Verifier, Config, Caller, authenticate}
use codesign.Server.Auth.Gate.{Vouched, authenticate_iff}
use codesign.Server.Headers.{bearer_token}
use codesign.Server.Loopback.{Net}
use codesign.Text.Fold.{Tables}

-- The claims that the server keeps.
abbrev pub repository_of : Cache × Result Claims → Cache × Result Bytes
repository_of (c, ok claims) = (c, ok claims.repository)
repository_of (c, err e) = (c, err e)

abbrev pub github_verifier : Tables → ParseWithClaims → OidcConfig → Weather → Verifier Cache
github_verifier u parse config w = record {
  verify = λ c token. repository_of (verify u parse config w token c);
}

repository_of_ok :
    (p : Cache × Result Claims) (who : Bytes)
    → (repository_of p).1 ≡ ok who
    → (claims : Claims) × (p.1 ≡ ok claims) × (who ≡ claims.repository)
repository_of_ok (c, ok claims) who h = (claims, refl, cc)
repository_of_ok (c, err e) who h = cc

-- The daemon's configuration with the token check on for every peer.
abbrev pub closed_config : Verifier Cache → Config Cache
closed_config v = record { allow_unauthenticated_loopback = false; verifier = some v }

module _ (u : Tables) (net : Net) (Signed : Bytes → PublicKey → Claims → Type 0) (now : ℕ)
    (parse : ParseWithClaims) (oidc : OidcConfig) (w : Weather) where
  -- The caller's bearer token was verified, and the caller is called by its repository.
  pub record Admitted (req : Caller) (c : Cache) (who : Bytes) : Type 0 where
    pub token : Bytes
    pub claims : Claims
    pub carries : bearer_token u req.authorization ≡ some token
    pub verified :
        Verified u Signed now parse oidc w token c
          (verify u parse (new_verifier oidc) w token c).0
          claims
    pub who_is : who ≡ claims.repository

  Vouched-Admitted :
      (req : Caller) (c : Cache) (who : Bytes)
      → IsSound Signed now parse
      → Ordered w.readings
      → ((d : Cache) → Evolves w.readings.at_read d (w.others.after d))
      → Vouched u net (closed_config (github_verifier u parse (new_verifier oidc) w)) req c who
      → Admitted req c who
  Vouched-Admitted req c who sound ordered forward v =
      let same : github_verifier u parse (new_verifier oidc) w ≡ v.verifier =
        some_injective v.configured in
      let (claims, parsed, who_is) =
        repository_of_ok (verify u parse (new_verifier oidc) w v.token c) who
          (rw (← same) at v.accepts) in
      record {
        token = v.token;
        claims = claims;
        carries = v.carries;
        verified =
            verify-Verified u Signed now parse oidc w v.token c claims sound ordered forward parsed;
        who_is = who_is;
      }

  -- Without the loopback skip, whoever passes `authenticate` of a server whose verifier is that of
  -- package oidc bears a token that meets every condition of `Verify`, loopback peers included, and
  -- is called by the repository of the token.
  pub authenticate-Admitted :
      (req : Caller) (c : Cache) (who : Bytes)
      → IsSound Signed now parse
      → Ordered w.readings
      → ((d : Cache) → Evolves w.readings.at_read d (w.others.after d))
      → (authenticate u net (closed_config (github_verifier u parse (new_verifier oidc) w)) req c).1
        ≡ ok who
      → Admitted req c who
  authenticate-Admitted req c who sound ordered forward h =
      elim ((authenticate_iff u net (closed_config (github_verifier u parse (new_verifier oidc) w))
          req c who).0
        h) [
          | inl (skips, _) ↦ cc (skips.0)
          | inr (asked, v) ↦ Vouched-Admitted req c who sound ordered forward v
        ]
