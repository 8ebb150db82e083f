-- ===== src/Oidc/Admission.antt =====
-- Which tokens `Verify` accepts.
use mathlib.Core.List.{Memᴰ}
use codesign.Common.{
  ℕ, ◌≡◌, ◌≢◌, ◌<◌, ◌≤◌, refl, ap, inl, inr, true, false, List, [], ◌∷◌, some, arith, Bytes, any,
  is_empty, Bool-cases,
}
use codesign.Common.Errors.{Result, ok, err}
use codesign.Oidc.Keys.{PublicKey, Cache, key}
use codesign.Oidc.Freshness.{Ordered, Evolves, Current, key-Current}
use codesign.Oidc.Verify.{
  new_verifier, issuer_or, Config, Claims, Options, Header, KeyFunc, ParseWithClaims, Weather,
  key_id, key_func, rs256, options_of, is_allowed, admit, admitted, verify,
}
use codesign.Text.Fold.{Tables, equal_fold}

-- The documented promise of the JWT library: a token is accepted only if the key function gave the key
-- for its header, the signature is good for that key, it has not expired and is valid already, where
-- it says so, and what the options ask for holds: a method of those that are listed, an issuer, an
-- audience, and that it does expire. What the options do not ask for is not checked.
pub record Accepted (Signed : Bytes → PublicKey → Claims → Type 0) (now : ℕ) (o : Options)
    (token : Bytes) (f : KeyFunc) (c : Cache) (after : Cache) (claims : Claims) : Type 0 where
  pub header : Header
  pub signing_key : PublicKey
  pub valid_method : o.valid_methods ≢ [] → Memᴰ header.alg o.valid_methods
  pub key_given : f header c ≡ (after, ok signing_key)
  pub signed : Signed token signing_key claims
  pub issuer_matches : o.issuer ≢ [] → claims.issuer ≡ o.issuer
  pub audience_matches : o.audience ≢ [] → Memᴰ o.audience claims.audience
  pub expires : o.expiration_required ≡ true → (expires : ℕ) × (claims.expires_at ≡ some expires)
  pub unexpired : (expires : ℕ) → claims.expires_at ≡ some expires → now < expires
  pub started : (begins : ℕ) → claims.not_before ≡ some begins → begins ≤ now

pub record IsSound (Signed : Bytes → PublicKey → Claims → Type 0) (now : ℕ)
    (parse : ParseWithClaims) : Type 0 where
  pub accepted :
      (o : Options) (token : Bytes) (f : KeyFunc) (c : Cache) (claims : Claims)
      → (parse o token f c).1 ≡ ok claims
      → Accepted Signed now o token f c (parse o token f c).0 claims

-- A repository of the allowlist that is the claimed one but for case.
pub data Listed (u : Tables) (repository : Bytes) : List Bytes → Type 0 where
  first :
      {r : Bytes} {rs : List Bytes}
      → equal_fold u r repository ≡ true
      → Listed u repository (r ∷ rs)
  later : {r : Bytes} {rs : List Bytes} → Listed u repository rs → Listed u repository (r ∷ rs)

is_allowed-Listed :
    (u : Tables) (rs : List Bytes) (r : Bytes) → is_allowed u rs r ≡ true → Listed u r rs
unfolding is_allowed any
is_allowed-Listed u [] r h = absurd (ground arith)
is_allowed-Listed u (x ∷ rs) r h = elim (Bool-cases (equal_fold u x r)) [
  | inl same ↦ first same
  | inr other ↦ later (is_allowed-Listed u rs r (rw other at h))
]

mem_only {ℓ} : {A : Type ℓ} {a b : A} → Memᴰ a (b ∷ []) → a ≡ b
mem_only (Memᴰ.head e) = e
mem_only (Memᴰ.tail m) = elim m [ ]

is_empty-ne-nil {ℓ} : {A : Type ℓ} (s : List A) → is_empty s ≡ false → s ≢ []
is_empty-ne-nil s h e = cc (rw e at h)

admit_ok :
    (u : Tables) (config : Config) (a claims : Claims)
    → admit u config a ≡ ok claims
    → (a ≡ claims) × (a.repository ≢ []) × Listed u a.repository config.allowed_repositories
unfolding admit
admit_ok u config a claims h = elim (Bool-cases (is_empty a.repository)) [
  | inl nobody ↦ cc (rw nobody at h)
  | inr named ↦ elim (Bool-cases (is_allowed u config.allowed_repositories a.repository)) [
    | inr stranger ↦ cc (rw (named, stranger) at h)
    | inl allowed ↦ (
      cc (rw (named, allowed) at h),
      is_empty-ne-nil a.repository named,
      is_allowed-Listed u config.allowed_repositories a.repository allowed,
    )
  ]
]

admitted_ok :
    (u : Tables) (config : Config) (p : Cache × Result Claims) (claims : Claims)
    → (admitted u config p).1 ≡ ok claims
    → (p.1 ≡ ok claims)
      × ((admitted u config p).0 ≡ p.0)
      × (claims.repository ≢ [])
      × Listed u claims.repository config.allowed_repositories
admitted_ok u config (c, err e) claims h = cc
admitted_ok u config (c, ok a) claims h =
    let (same, named, listed) = admit_ok u config a claims h in
    (ap ok same, refl, rw same at named, rw same at listed)

key_func_ok :
    (w : Weather) (header : Header) (c after : Cache) (k : PublicKey)
    → key_func w header c ≡ (after, ok k)
    → (key_id header.kid ≢ [])
      × (key w.others w.readings w.loaded (key_id header.kid) c ≡ (after, ok k))
unfolding key_func
key_func_ok w header c after k h = elim (Bool-cases (is_empty (key_id header.kid))) [
  | inl nameless ↦ cc (rw nameless at h)
  | inr named ↦ (is_empty-ne-nil _ named, rw named at h)
]

issuer_or-ne-nil : (issuer : Bytes) → issuer_or issuer ≢ []
issuer_or-ne-nil [] h = cc
issuer_or-ne-nil (c ∷ issuer) h = cc

module _ (u : Tables) (Signed : Bytes → PublicKey → Claims → Type 0) (now : ℕ)
    (parse : ParseWithClaims) (config : Config) (w : Weather) (token : Bytes) (c : Cache) where
  -- What holds of accepted claims.
  pub record Verified (after : Cache) (claims : Claims) : Type 0 where
    pub header : Header
    pub is_rs256 : header.alg ≡ rs256
    pub kid_ne_nil : key_id header.kid ≢ []
    pub signing_key : PublicKey
    pub current : Current w.readings.at_read (key_id header.kid) signing_key after
    pub signed : Signed token signing_key claims
    pub issuer_matches : claims.issuer ≡ issuer_or config.issuer
    pub audience_ne_nil : config.audience ≢ []
    pub audience_matches : Memᴰ config.audience claims.audience
    pub expires : ℕ
    pub expires_is : claims.expires_at ≡ some expires
    pub unexpired : now < expires
    pub started : (begins : ℕ) → claims.not_before ≡ some begins → begins ≤ now
    pub repository_ne_nil : claims.repository ≢ []
    pub listed : Listed u claims.repository config.allowed_repositories

  verified_of :
      (claims : Claims) (after : Cache)
      → Ordered w.readings
      → ((d : Cache) → Evolves w.readings.at_read d (w.others.after d))
      → config.audience ≢ []
      → claims.repository ≢ []
      → Listed u claims.repository config.allowed_repositories
      → Accepted Signed now (options_of (new_verifier config)) token (key_func w) c after claims
      → Verified after claims
  unfolding new_verifier
  verified_of claims after ordered forward audience named listed a =
      let (kid, given) = key_func_ok w a.header c after a.signing_key a.key_given in
      let current =
        key-Current w.others w.readings w.loaded (key_id a.header.kid) c {k = a.signing_key} ordered
          forward (ap (λ p. p.1) given) in
      record {
        header = a.header;
        is_rs256 = mem_only (a.valid_method (λ k. cc));
        kid_ne_nil = kid;
        signing_key = a.signing_key;
        current = rw given at current;
        signed = a.signed;
        issuer_matches = a.issuer_matches (issuer_or-ne-nil config.issuer);
        audience_ne_nil = audience;
        audience_matches = a.audience_matches audience;
        expires = (a.expires refl).0;
        expires_is = (a.expires refl).1;
        unexpired = a.unexpired (a.expires refl).0 (a.expires refl).1;
        started = a.started;
        repository_ne_nil = named;
        listed = listed;
      }

  -- With a JWT library that keeps its documented promise, to check what the options ask for, `Verify`
  -- of a verifier that `New` has made accepts only a token with RS256 as its method and a nonempty
  -- key id, signed by a key that stands under that id in a key set of at most ten minutes before the
  -- call, of the configured issuer (or GitHub's, if none is configured) and of the configured,
  -- nonempty audience, which does expire, has not expired and is valid already, and whose repository
  -- is on the allowlist but for case.
  pub verify-Verified :
      (claims : Claims)
      → IsSound Signed now parse
      → Ordered w.readings
      → ((d : Cache) → Evolves w.readings.at_read d (w.others.after d))
      → (verify u parse (new_verifier config) w token c).1 ≡ ok claims
      → Verified (verify u parse (new_verifier config) w token c).0 claims
  unfolding verify new_verifier
  verify-Verified claims sound ordered forward h =
      elim (Bool-cases (is_empty config.allowed_repositories)) [
        | inl closed ↦ cc (rw closed at h)
        | inr listing ↦ elim (Bool-cases (is_empty config.audience)) [
          | inl unset ↦ cc (rw (listing, unset) at h)
          | inr audience ↦
              let p = parse (options_of (new_verifier config)) token (key_func w) c in
              let (parsed, same, named, listed) =
                admitted_ok u (new_verifier config) p claims (rw (listing, audience) at h) in
              rw (listing, audience, same)
                (verified_of claims p.0 ordered forward (is_empty-ne-nil config.audience audience)
                  named listed
                  (sound.accepted (options_of (new_verifier config)) token (key_func w) c claims
                    parsed))
        ]
      ]
