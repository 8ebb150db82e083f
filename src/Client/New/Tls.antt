-- ===== src/Client/New/Tls.antt =====
-- What `buildTLS` makes of the settings.
use codesign.Common.{
  ◌≡◌, ◌≢◌, ◌↔◌, ◌⊎◌, refl, ap, ◌∙◌, inl, inr, Bool, true, false, ◌&&◌, [], ◌∷◌, Option, none, some,
  Bytes, codes, is_empty, if◌then◌else◌,
}
use codesign.Common.Options.{some_injective}
use codesign.Common.Errors.{
  ok_injective, Error, Result, ok, err, annotate, annotate_iff, ◌>>=◌, bind_iff, bind-eq-ok,
  sentinel, half_key_pair,
}
use codesign.Client.New.{
  Options, Platform, TlsConfig, load_pem, load_key_pair, pool_or, certificate_of, roots_of,
  is_half_pair, build_tls,
}

pub unless_iff :
    {A B : Type 0} (refused : Bool) (e : Error) (r : Result A) (x : A)
    → ((refused ≡ false) × (r ≡ ok x)) ↔ B
    → ((if refused then err e else r) ≡ ok x) ↔ B
unless_iff true e r x h = (λ k. cc, λ b. cc (h.1 b).0)
unless_iff false e r x h = (λ k. h.0 (refl, k), λ b. (h.1 b).1)

module _ {Certificate Pool : Type 0} (p : Platform Certificate Pool) where
  -- The settings, each a path or the PEM itself, are read as this pair.
  abbrev pub PairOf : Bytes → Bytes → Certificate → Type 0
  PairOf cert key pair =
      (cert_pem key_pem : Bytes) × (load_pem p cert ≡ ok cert_pem)
      × (load_pem p key ≡ ok key_pem)
      × (p.key_pair cert_pem key_pem ≡ ok pair)

  -- The key pair that the settings give: none for no settings, never one from half a pair.
  abbrev pub GivesPair : Bytes → Bytes → Option Certificate → Type 0
  GivesPair cert key none = (cert ≡ []) × (key ≡ [])
  GivesPair cert key (some pair) = (cert ≢ []) × (key ≢ []) × PairOf cert key pair

  abbrev pub GivesRoots : Bytes → Option Pool → Type 0
  GivesRoots root_ca none = root_ca ≡ []
  GivesRoots root_ca (some pool) =
      (root_ca ≢ [])
      × ((ca_pem : Bytes) × (load_pem p root_ca ≡ ok ca_pem) × (p.pool_of ca_pem ≡ some pool))

  -- Go's defaults where there is neither; else both enter.
  abbrev pub tls_with : Option Certificate → Option Pool → Option (TlsConfig Certificate Pool)
  tls_with none none = none
  tls_with (some pair) roots = some (record { certificate = some pair; root_cas = roots })
  tls_with none (some pool) = some (record { certificate = none; root_cas = some pool })

  load_key_pair_iff :
      (cert key : Bytes) (pair : Certificate)
      → (load_key_pair p cert key ≡ ok pair) ↔ PairOf cert key pair
  unfolding load_key_pair
  load_key_pair_iff cert key pair = (forward, λ h. rw (h.2, h.3, h.4) refl)
    where
      forward : load_key_pair p cert key ≡ ok pair → PairOf cert key pair
      forward h =
          let first = (bind_iff _ _ _).0 h in
          let second = (bind_iff _ _ _).0 first.2 in
          (
            first.0,
            second.0,
            (annotate_iff _ _ _).0 first.1,
            (annotate_iff _ _ _).0 second.1,
            (annotate_iff _ _ _).0 second.2,
          )

  certificate_of_iff :
      (cert key : Bytes) (x : Option Certificate)
      → ((is_half_pair key cert ≡ false) × (certificate_of p cert key ≡ ok x))
        ↔ GivesPair cert key x
  certificate_of_iff [] [] none = (λ h. (refl, refl), λ h. (refl, refl))
  certificate_of_iff [] [] (some pair) = (λ h. cc, λ h. absurd (h.0 refl))
  certificate_of_iff [] (d ∷ key) none = (λ h. cc, λ h. cc)
  certificate_of_iff [] (d ∷ key) (some pair) = (λ h. cc, λ h. absurd (h.0 refl))
  certificate_of_iff (c ∷ cert) [] none = (λ h. cc, λ h. cc)
  certificate_of_iff (c ∷ cert) [] (some pair) = (λ h. cc, λ h. absurd (h.1 refl))
  certificate_of_iff (c ∷ cert) (d ∷ key) none =
      (λ h. absurd (no_none (load_key_pair p (c ∷ cert) (d ∷ key)) h.1), λ h. cc)
    where
      no_none : (r : Result Certificate) → ¬ ((r >>= λ pair. ok (some pair)) ≡ ok none)
      no_none (err e) h = cc
      no_none (ok pair) h = cc
  certificate_of_iff (c ∷ cert) (d ∷ key) (some pair) = (
    λ h. (
      (λ k. cc),
      (λ k. cc),
      (load_key_pair_iff (c ∷ cert) (d ∷ key) pair).0
          (same_pair (load_key_pair p (c ∷ cert) (d ∷ key)) h.1),
    ),
    λ h. (refl, rw ((load_key_pair_iff (c ∷ cert) (d ∷ key) pair).1 h.2) refl),
  )
    where
      same_pair : (r : Result Certificate) → (r >>= λ x. ok (some x)) ≡ ok (some pair) → r ≡ ok pair
      same_pair (err e) h = cc
      same_pair (ok x) h = cc

  roots_of_iff :
      (root_ca : Bytes) (x : Option Pool) → (roots_of p root_ca ≡ ok x) ↔ GivesRoots root_ca x
  roots_of_iff [] none = (λ h. refl, λ h. refl)
  roots_of_iff [] (some pool) = (λ h. cc, λ h. absurd (h.0 refl))
  roots_of_iff (c ∷ root_ca) none = (λ h. absurd (no_pool ((bind_iff _ _ _).0 h)), λ h. cc)
    where
      no_pool : ¬ (
          (ca_pem : Bytes) × (annotate (codes "loading root CA") (load_pem p (c ∷ root_ca))
            ≡ ok ca_pem)
          × (pool_or p (p.pool_of ca_pem) ≡ ok none))
      no_pool h = not_none (p.pool_of h.0) h.2
        where
          not_none : (x : Option Pool) → ¬ (pool_or p x ≡ ok none)
          not_none none k = cc
          not_none (some pool) k = cc
  roots_of_iff (c ∷ root_ca) (some pool) = (forward, λ h. rw (h.1.1, h.1.2) refl)
    where
      same_pool : (x : Option Pool) → pool_or p x ≡ ok (some pool) → x ≡ some pool
      same_pool none k = cc
      same_pool (some y) k = cc

      forward : roots_of p (c ∷ root_ca) ≡ ok (some pool) → GivesRoots (c ∷ root_ca) (some pool)
      forward h =
          let loaded = (bind_iff _ _ _).0 h in
          ((λ k. cc), (loaded.0, (annotate_iff _ _ _).0 loaded.1, same_pool _ loaded.2))

  -- The TLS configuration that the settings give: none for no settings at all.
  abbrev pub GivesTls : Bytes → Bytes → Bytes → Option (TlsConfig Certificate Pool) → Type 0
  GivesTls cert key root_ca none = (cert ≡ []) × (key ≡ []) × (root_ca ≡ [])
  GivesTls cert key root_ca (some tls) =
      ((cert ≢ []) ⊎ (root_ca ≢ []))
      × GivesPair cert key tls.certificate
      × GivesRoots root_ca tls.root_cas

  abbrev set : Bytes → Bytes → Bytes → Result (Option (TlsConfig Certificate Pool))
  set cert key root_ca = certificate_of p cert key >>= λ certificate.
      roots_of p root_ca >>= λ root_cas.
      ok (some (record { certificate = certificate; root_cas = root_cas }))

  set_ok :
      (cert key root_ca : Bytes) (x : Option (TlsConfig Certificate Pool))
      → set cert key root_ca ≡ ok x
      → ((pair : Option Certificate) × (roots : Option Pool) × (certificate_of p cert key ≡ ok pair)
          × (roots_of p root_ca ≡ ok roots)
          × (some (record { certificate = pair; root_cas = roots }) ≡ x))
  set_ok cert key root_ca x h =
      let first = bind-eq-ok (certificate_of p cert key) _ h in
      let second = bind-eq-ok (roots_of p root_ca) _ first.2 in
      (first.0, second.0, first.1, second.1, ok_injective second.2)

  set_iff :
      (cert key root_ca : Bytes) (x : Option (TlsConfig Certificate Pool))
      → ((cert ≢ []) ⊎ (root_ca ≢ []))
      → ((is_half_pair key cert ≡ false) × (set cert key root_ca ≡ ok x))
        ↔ GivesTls cert key root_ca x
  set_iff cert key root_ca none some_setting =
      (λ h. cc (set_ok cert key root_ca none h.1).4, λ h. absurd (no_setting h some_setting))
    where
      no_setting : GivesTls cert key root_ca none → ¬ ((cert ≢ []) ⊎ (root_ca ≢ []))
      no_setting h (inl k) = k h.0
      no_setting h (inr k) = k h.2
  set_iff cert key root_ca (some tls) some_setting = (forward, backward)
    where
      forward :
          (is_half_pair key cert ≡ false) × (set cert key root_ca ≡ ok (some tls))
          → GivesTls cert key root_ca (some tls)
      forward h =
          let parts = set_ok cert key root_ca (some tls) h.1 in
          let same = some_injective parts.4 in
          (
            some_setting,
            (certificate_of_iff cert key tls.certificate).0
                (h.0, parts.2 ∙ ap (λ t. ok t.certificate) same),
            (roots_of_iff root_ca tls.root_cas).0 (parts.3 ∙ ap (λ t. ok t.root_cas) same),
          )

      backward :
          GivesTls cert key root_ca (some tls)
          → (is_half_pair key cert ≡ false) × (set cert key root_ca ≡ ok (some tls))
      backward h =
          let pair = (certificate_of_iff cert key tls.certificate).1 h.1 in
          (pair.0, rw (pair.1, (roots_of_iff root_ca tls.root_cas).1 h.2) refl)

  not_set : ¬ ((◌≢◌ {A = Bytes} [] []) ⊎ (◌≢◌ {A = Bytes} [] []))
  not_set (inl k) = k refl
  not_set (inr k) = k refl

  whole_iff :
      (cert key root_ca : Bytes) (x : Option (TlsConfig Certificate Pool))
      → ((if is_half_pair key cert
            then err (sentinel half_key_pair)
            else if is_empty cert && is_empty root_ca
            then ok none
            else set cert key root_ca)
          ≡ ok x)
        ↔ GivesTls cert key root_ca x
  whole_iff [] [] [] none = (λ h. (refl, refl, refl), λ h. refl)
  whole_iff [] [] [] (some tls) = (λ h. cc, λ h. absurd (not_set h.0))
  whole_iff [] (d ∷ key) [] none = (λ h. cc, λ h. cc)
  whole_iff [] (d ∷ key) [] (some tls) = (λ h. cc, λ h. absurd (not_set h.0))
  whole_iff [] key (c ∷ root_ca) x =
      unless_iff _ _ _ x (set_iff [] key (c ∷ root_ca) x (inr (λ k. cc)))
  whole_iff (c ∷ cert) key root_ca x =
      unless_iff _ _ _ x (set_iff (c ∷ cert) key root_ca x (inl (λ k. cc)))

  pub build_tls_iff :
      (config : Options) (x : Option (TlsConfig Certificate Pool))
      → (build_tls p config ≡ ok x) ↔ GivesTls config.client_cert config.client_key config.root_ca x
  unfolding build_tls
  build_tls_iff config x = whole_iff config.client_cert config.client_key config.root_ca x
