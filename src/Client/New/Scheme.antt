-- ===== src/Client/New/Scheme.antt =====
-- Which URLs of a signing service are secure.
use codesign.Common.{
  ◌≡◌, ◌≢◌, ◌↔◌, ◌⊎◌, refl, inl, inr, true, false, not, [], ◌∷◌, Option, none, some, Bytes, codes,
  equal, equal_iff, is_empty, if◌then◌else◌, arith, Bool-cases,
}
use codesign.Client.New.{Url, Platform, is_loopback_host, secure_url}
use codesign.Server.Loopback.{is_loopback_parsed, is_loopback_ip}
use codesign.Text.Fold.{Tables, equal_fold, to_lower}

module _ (u : Tables) {Certificate Pool : Type 0} (p : Platform Certificate Pool) where
  -- The host is the local one, by its name or by its address.
  abbrev pub IsLocal : Bytes → Type 0
  IsLocal host =
      (equal_fold u host (codes "localhost") ≡ true)
      ⊎ ((ip : Bytes) × (p.parse_ip host ≡ some ip) × (is_loopback_ip ip ≡ true))

  -- Nothing is sent in plain text over a network: https to some host, or http to the local one.
  abbrev pub IsSecureScheme : Bytes → Bytes → Bytes → Type 0
  IsSecureScheme scheme host hostname =
      ((scheme ≡ codes "https") × (host ≢ [])) ⊎ ((scheme ≡ codes "http") × IsLocal hostname)

  abbrev pub IsSecure : Url → Type 0
  IsSecure parsed = IsSecureScheme (to_lower u parsed.scheme) parsed.host parsed.hostname

  local_parsed :
      (x : Option Bytes)
      → (is_loopback_parsed x ≡ true) ↔ ((ip : Bytes) × (x ≡ some ip) × (is_loopback_ip ip ≡ true))
  local_parsed none = (λ h. cc, λ h. cc)
  local_parsed (some ip) = (λ h. (ip, refl, h), λ h. ground (arith, h))

  is_loopback_host_iff : (host : Bytes) → (is_loopback_host u p host ≡ true) ↔ IsLocal host
  unfolding is_loopback_host
  is_loopback_host_iff host = elim (Bool-cases (equal_fold u host (codes "localhost"))) [
    | inl named ↦ (λ h. inl named, λ h. rw named refl)
    | inr other ↦ (
      λ h. inr ((local_parsed (p.parse_ip host)).0 (ground (arith, h, other))),
      λ h. by_address other h,
    )
  ]
    where
      by_address :
          equal_fold u host (codes "localhost") ≡ false
          → IsLocal host
          → (if equal_fold u host (codes "localhost")
              then true
              else is_loopback_parsed (p.parse_ip host))
            ≡ true
      by_address other (inl named) = rw named refl
      by_address other (inr h) = rw other ((local_parsed (p.parse_ip host)).1 h)

  has_host : (host : Bytes) → (not (is_empty host) ≡ true) ↔ (host ≢ [])
  has_host [] = (λ h. cc, λ h. absurd (h refl))
  has_host (c ∷ host) = (λ h k. cc, λ h. refl)

  -- The switch on the scheme.
  IsSecureScheme-iff :
      (scheme host hostname : Bytes)
      → ((if equal scheme (codes "https")
            then not (is_empty host)
            else if equal scheme (codes "http")
            then is_loopback_host u p hostname
            else false)
          ≡ true)
        ↔ IsSecureScheme scheme host hostname
  IsSecureScheme-iff scheme host hostname = elim (Bool-cases (equal scheme (codes "https"))) [
    | inl https ↦ (
      λ h. inl ((equal_iff _ _).0 https, (has_host host).0 (ground (arith, h, https))),
      λ h. rw https (over_https ((equal_iff _ _).0 https) h),
    )
    | inr other ↦ elim (Bool-cases (equal scheme (codes "http"))) [
      | inl http ↦ (
        λ h. inr (
          (equal_iff _ _).0 http,
          (is_loopback_host_iff hostname).0 (ground (arith, h, other, http)),
        ),
        λ h. rw (other, http) (over_http ((equal_iff _ _).0 http) h),
      )
      | inr neither ↦
          ((λ h. ground (arith, h, other, neither)), λ h. absurd (unknown other neither h))
    ]
  ]
    where
      over_https :
          scheme ≡ codes "https" → IsSecureScheme scheme host hostname → not (is_empty host) ≡ true
      over_https https (inl h) = (has_host host).1 h.1
      over_https https (inr h) = cc

      over_http :
          scheme ≡ codes "http"
          → IsSecureScheme scheme host hostname
          → is_loopback_host u p hostname ≡ true
      over_http http (inl h) = cc
      over_http http (inr h) = (is_loopback_host_iff hostname).1 h.1

      unknown :
          equal scheme (codes "https") ≡ false
          → equal scheme (codes "http") ≡ false
          → ¬ IsSecureScheme scheme host hostname
      unknown other neither (inl h) =
          ground (arith, other, (equal_iff scheme (codes "https")).1 h.0)
      unknown other neither (inr h) =
          ground (arith, neither, (equal_iff scheme (codes "http")).1 h.0)

  pub secure_url_iff : (parsed : Url) → (secure_url u p parsed ≡ true) ↔ IsSecure parsed
  unfolding secure_url
  secure_url_iff parsed = IsSecureScheme-iff (to_lower u parsed.scheme) parsed.host parsed.hostname
