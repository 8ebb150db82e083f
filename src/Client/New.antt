-- ===== src/Client/New.antt =====
-- `New` of client.go, with `secureURL` and `buildTLS`. Go's URL and IP parsers, its certificate
-- parsers and the file system are parameters.
pub mod Tls
pub mod Scheme
pub mod Secure
use codesign.Common.{
  ℕ, ◌*◌, ◌^◌, Bool, true, false, ◌&&◌, not, [], ◌∷◌, Option, none, some, Bytes, codes, equal,
  is_empty, if◌then◌else◌, ◌++◌,
}
use codesign.Common.Errors.{
  Result, ok, err, wrap, annotate, sentinel, no_url, insecure_url, half_key_pair, no_certs_in_pem,
  no_default_transport, ◌>>=◌,
}
use codesign.Common.Integers.{ℤ, positive_or, at_least_zero}
use codesign.Text.Contains.{contains}
use codesign.Client.{Config}
use codesign.Server.Loopback.{is_loopback_parsed}
use codesign.Text.Fold.{Tables, equal_fold, to_lower}
use codesign.Text.Space.{trim_suffix}

-- `Config` of the package.
pub record Options : Type 0 where
  pub url : Bytes
  pub client_cert : Bytes
  pub client_key : Bytes
  pub root_ca : Bytes
  pub token : Bytes
  pub retries : ℤ
  pub timeout : ℤ

-- `DefaultTimeout`, in nanoseconds.
abbrev pub default_timeout : ℕ
default_timeout = 5 * 60 * 10 ^ 9

-- What the client reads of a `url.URL`; `hostname` is its `Hostname()`.
pub record Url : Type 0 where
  pub scheme : Bytes
  pub host : Bytes
  pub hostname : Bytes

module _ (Certificate Pool : Type 0) where
  -- `url.Parse`, `net.ParseIP`, `os.ReadFile`, `tls.X509KeyPair`, the pool that
  -- `AppendCertsFromPEM` makes of an empty one, and whether `http.DefaultTransport` is an
  -- `*http.Transport`.
  pub record Platform : Type 0 where
    pub parse_url : Bytes → Result Url
    pub parse_ip : Bytes → Option Bytes
    pub read_file : Bytes → Result Bytes
    pub key_pair : Bytes → Bytes → Result Certificate
    pub pool_of : Bytes → Option Pool
    pub has_transport : Bool

  -- `tls.Config` of at least TLS 1.2.
  pub record TlsConfig : Type 0 where
    pub certificate : Option Certificate
    pub root_cas : Option Pool

  -- A client: what `Sign` reads, the timeout of one attempt in nanoseconds, and how it speaks TLS.
  pub record Client : Type 0 where
    pub config : Config
    pub timeout : ℕ
    pub tls : Option TlsConfig

abbrev pub is_half_pair : Bytes → Bytes → Bool
is_half_pair key cert = if is_empty key then not (is_empty cert) else is_empty cert

module _ {Certificate Pool : Type 0} (p : Platform Certificate Pool) where
  unfoldable pub load_pem : Bytes → Result Bytes
  unfolding contains
  load_pem value =
      if contains (codes "-----BEGIN") value
      then ok value
      else annotate (codes "reading " ++ value) (p.read_file value)

  unfoldable pub load_key_pair : Bytes → Bytes → Result Certificate
  load_key_pair cert_value key_value =
      annotate (codes "loading client certificate") (load_pem cert_value) >>= λ cert_pem.
      annotate (codes "loading client key") (load_pem key_value) >>= λ key_pem.
      annotate (codes "parsing client certificate") (p.key_pair cert_pem key_pem)

  abbrev pub pool_or : Option Pool → Result (Option Pool)
  pool_or none = err (wrap (codes "parsing root CA") (sentinel no_certs_in_pem))
  pool_or (some pool) = ok (some pool)

  -- The two settings of `buildTLS`, each of them optional.
  abbrev pub certificate_of : Bytes → Bytes → Result (Option Certificate)
  certificate_of [] key = ok none
  certificate_of (c ∷ cert) key = load_key_pair (c ∷ cert) key >>= λ pair. ok (some pair)

  abbrev pub roots_of : Bytes → Result (Option Pool)
  roots_of [] = ok none
  roots_of (c ∷ root_ca) = annotate (codes "loading root CA") (load_pem (c ∷ root_ca)) >>= λ ca_pem.
      pool_or (p.pool_of ca_pem)

  unfoldable pub build_tls : Options → Result (Option (TlsConfig Certificate Pool))
  build_tls config =
      if is_half_pair config.client_key config.client_cert
      then err (sentinel half_key_pair)
      else if is_empty config.client_cert && is_empty config.root_ca
      then ok none
      else (certificate_of config.client_cert config.client_key >>= λ certificate.
          roots_of config.root_ca >>= λ root_cas.
          ok (some (record { certificate = certificate; root_cas = root_cas })))

-- The client for a URL without its trailing slash.
abbrev pub client_for :
    {Certificate Pool : Type 0}
    → Options
    → Bytes
    → Option (TlsConfig Certificate Pool)
    → Client Certificate Pool
client_for config url tls = record {
  config = record { url = url; token = config.token; retries = at_least_zero config.retries };
  timeout = positive_or default_timeout config.timeout;
  tls = tls;
}

module _ (u : Tables) {Certificate Pool : Type 0} (p : Platform Certificate Pool) where
  unfoldable pub is_loopback_host : Bytes → Bool
  unfolding equal_fold
  is_loopback_host host =
      if equal_fold u host (codes "localhost") then true else is_loopback_parsed (p.parse_ip host)

  unfoldable pub secure_url : Url → Bool
  secure_url parsed =
      let scheme = to_lower u parsed.scheme in
      if equal scheme (codes "https")
      then not (is_empty parsed.host)
      else if equal scheme (codes "http")
      then is_loopback_host parsed.hostname
      else false

  abbrev pub require_secure : Bytes → Url → Result (Unit {0})
  require_secure url parsed =
      if secure_url parsed then ok tt else err (wrap url (sentinel insecure_url))

  unfoldable pub new : Options → Result (Client Certificate Pool)
  new config =
      if is_empty config.url
      then err (sentinel no_url)
      else (let url = trim_suffix b'/' config.url in
          annotate (codes "parsing signing service URL") (p.parse_url url) >>= λ parsed.
          require_secure url parsed >>= λ _. build_tls p config >>= λ tls.
          if p.has_transport
          then ok (client_for config url tls)
          else err (sentinel no_default_transport))
