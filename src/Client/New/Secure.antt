-- ===== src/Client/New/Secure.antt =====
-- Which configurations `New` makes a client of.
use codesign.Common.{
  ℕ, zero, suc, ◌≡◌, ◌≢◌, ◌↔◌, ◌<◌, refl, sym, ap, ◌∙◌, Bool, true, false, [], ◌∷◌, Option, Bytes,
  codes, is_empty, if◌then◌else◌, arith,
}
use codesign.Common.Errors.{
  Result, ok, err, annotate, annotate_iff, ◌>>=◌, bind-eq-ok, sentinel, no_default_transport,
  insecure_url, no_url, wrap,
}
use codesign.Common.Integers.{ℤ, pos, negsuc, positive_or, at_least_zero}
use codesign.Client.New.{
  Options, Url, Platform, TlsConfig, Client, default_timeout, secure_url, build_tls, client_for,
  require_secure, new,
}
use codesign.Client.New.Tls.{GivesTls, build_tls_iff}
use codesign.Text.Fold.{Tables}
use codesign.Text.Space.{trim_suffix}
use codesign.Client.New.Scheme.{IsSecure, secure_url_iff}

module _ (u : Tables) {Certificate Pool : Type 0} (p : Platform Certificate Pool) where
  -- What is true of a configuration and of the client that `New` makes of it.
  pub record IsClientOf (config : Options) (client : Client Certificate Pool) : Type 0 where
    pub named : config.url ≢ []
    pub parsed : Url
    pub parses : p.parse_url (trim_suffix b'/' config.url) ≡ ok parsed
    pub secure : IsSecure u p parsed
    pub gives_tls : GivesTls p config.client_cert config.client_key config.root_ca client.tls
    pub transport : p.has_transport ≡ true
    pub same_url : client.config.url ≡ trim_suffix b'/' config.url
    pub same_token : client.config.token ≡ config.token
    pub retries : client.config.retries ≡ at_least_zero config.retries
    pub timeout : client.timeout ≡ positive_or default_timeout config.timeout
    pub limited : 0 < client.timeout

  abbrev rest : Options → Result (Client Certificate Pool)
  rest config =
      let url = trim_suffix b'/' config.url in
      annotate (codes "parsing signing service URL") (p.parse_url url) >>= λ parsed.
      require_secure u p url parsed >>= λ _. build_tls p config >>= λ tls.
      if p.has_transport
      then ok (client_for config url tls)
      else err (sentinel no_default_transport)

  positive_timeout : (t : ℤ) {n : ℕ} → n ≡ positive_or default_timeout t → 0 < n
  positive_timeout (pos zero) h = ground (arith, h)
  positive_timeout (pos (suc m)) h = ground (arith, h)
  positive_timeout (negsuc m) h = ground (arith, h)

  built :
      (config : Options) (client : Client Certificate Pool)
      (tls : Option (TlsConfig Certificate Pool)) (has : Bool)
      → (if has
          then ok (client_for config (trim_suffix b'/' config.url) tls)
          else err (sentinel no_default_transport))
        ≡ ok client
      → (has ≡ true) × (client_for config (trim_suffix b'/' config.url) tls ≡ client)
  built config client tls true h = (refl, cc)
  built config client tls false h = cc

  is_secure :
      (url : Bytes) (parsed : Url)
      → require_secure u p url parsed ≡ ok tt
      → secure_url u p parsed ≡ true
  is_secure url parsed h = passed (secure_url u p parsed) h
    where
      passed :
          (secure : Bool)
          → ◌≡◌ {A = Result (Unit {0})}
              (if secure then ok tt else err (wrap url (sentinel insecure_url)))
              (ok tt)
          → secure ≡ true
      passed true k = refl
      passed false k = cc

  rest_ok :
      (config : Options) (client : Client Certificate Pool)
      → config.url ≢ []
      → rest config ≡ ok client
      → IsClientOf config client
  rest_ok config client named h =
      let first =
        bind-eq-ok
          (annotate (codes "parsing signing service URL")
            (p.parse_url (trim_suffix b'/' config.url)))
          _ h in
      let second =
        bind-eq-ok (require_secure u p (trim_suffix b'/' config.url) first.0) _ first.2 in
      let third = bind-eq-ok (build_tls p config) _ second.2 in
      let made = built config client third.0 p.has_transport third.2 in
      record {
        named = named;
        parsed = first.0;
        parses = (annotate_iff _ _ _).0 first.1;
        secure =
            (secure_url_iff u p first.0).0
              (is_secure (trim_suffix b'/' config.url) first.0 second.1);
        gives_tls = (build_tls_iff p config client.tls).0 (third.1 ∙ ap (λ c. ok c.tls) made.1);
        transport = made.0;
        same_url = ap (λ c. c.config.url) (sym made.1);
        same_token = ap (λ c. c.config.token) (sym made.1);
        retries = ap (λ c. c.config.retries) (sym made.1);
        timeout = ap (λ c. c.timeout) (sym made.1);
        limited = positive_timeout config.timeout (ap (λ c. c.timeout) (sym made.1));
      }

  client_is :
      (config : Options) (client : Client Certificate Pool)
      → IsClientOf config client
      → client_for config (trim_suffix b'/' config.url) client.tls ≡ client
  client_is config client is = cc

  rest_of :
      (config : Options) (client : Client Certificate Pool)
      → IsClientOf config client
      → rest config ≡ ok client
  rest_of config client is =
      rw
        (
          is.parses,
          (secure_url_iff u p is.parsed).1 is.secure,
          (build_tls_iff p config client.tls).1 is.gives_tls,
          is.transport,
        )
        (ap ok (client_is config client is))

-- `New` gives this client for a configuration if, and only if, it names a URL that parses without
-- its trailing slash; that URL is https to some host, or http to localhost or a loopback address;
-- the client certificate and its key are both set or neither is, and what is set can be read and
-- parsed, the CA too, and is what the client presents and trusts; and the client keeps that URL and
-- the token, with a timeout above zero, the configured one or the default for none, and no retries
-- for a negative number of them.
pub new_iff :
    (u : Tables) {Certificate Pool : Type 0} (p : Platform Certificate Pool) (config : Options)
    (client : Client Certificate Pool)
    → (new u p config ≡ ok client) ↔ IsClientOf u p config client
unfolding new
new_iff u p config client = chosen config.url refl
  where
    chosen :
        (url : Bytes)
        → config.url ≡ url
        → ((if is_empty url then err (sentinel no_url) else rest u p config) ≡ ok client)
          ↔ IsClientOf u p config client
    chosen [] none_set = (λ h. cc, λ is. absurd (is.named none_set))
    chosen (c ∷ url) named = (
      rest_ok u p config client (λ none_set. cc (sym named ∙ none_set)),
      rest_of u p config client,
    )
