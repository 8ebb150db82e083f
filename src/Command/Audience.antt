-- ===== src/Command/Audience.antt =====
-- The audience of the token that the command fetches, and the URL that its client posts to.
use codesign.Common.{
  ◌≡◌, refl, sym, ap, ◌∙◌, Bool, true, false, not, ◌&&◌, ◌⊎◌, inl, inr, [], ◌∷◌, ◌++◌, Bytes, codes,
  is_empty, if◌then◌else◌,
}
use mathlib.Core.Path.{subst}
use codesign.Common.Errors.{
  ok, err, annotate, annotate_iff, bind-eq-ok, sentinel, no_url, ok_injective, err-ne-ok,
}
use codesign.Client.New.{Platform, Client}
use codesign.Client.New.Secure.{new_iff}
use codesign.Client.Token.{Actions, Asking, fetch_github_token}
use codesign.Command.{Flags, normalize, options_of, token_for, build_client}
use codesign.Text.Fold.{Tables}
use codesign.Text.Space.{trim_suffix}

-- No slash is at the end.
abbrev pub Settled : Bytes → Type 0
Settled site = trim_suffix b'/' site ≡ site

trim_suffix-append : (site : Bytes) → trim_suffix b'/' (site ++ (b'/' ∷ [])) ≡ site
unfolding trim_suffix
trim_suffix-append [] = refl
trim_suffix-append (c ∷ []) = refl
trim_suffix-append (c ∷ d ∷ site) = ap (◌∷◌ c) (trim_suffix-append (d ∷ site))

-- Where the token of a client comes from: the flags, or GitHub, for this audience.
abbrev pub TokenFor : Actions → Asking → Flags → Bool → Bytes → Bytes → Type 0
TokenFor env a flags need_token site token =
    (token ≡ flags.token)
    ⊎ ((need_token ≡ true) × (flags.token ≡ []) × (fetch_github_token env a site ≡ ok token))

token_for-TokenFor :
    (env : Actions) (a : Asking) (opts : Flags) (need_token : Bool) (token : Bytes)
    → token_for env a opts need_token ≡ ok token
    → TokenFor env a opts need_token opts.url token
unfolding token_for
token_for-TokenFor env a opts need_token token h =
    chosen need_token opts.token opts.url (is_empty env.request_url) refl refl h
  where
    fetched :
        (url : Bytes)
        → (if is_empty url
            then err (sentinel no_url)
            else annotate (codes "fetching GitHub OIDC token") (fetch_github_token env a opts.url))
          ≡ ok token
        → fetch_github_token env a opts.url ≡ ok token
    fetched [] k = absurd (err-ne-ok k)
    fetched (c ∷ url) k = (annotate_iff _ _ _).0 k

    chosen :
        (need : Bool) (given url : Bytes) (absent : Bool)
        → need_token ≡ need
        → opts.token ≡ given
        → (if need && is_empty given && not absent
            then (if is_empty url
                then err (sentinel no_url)
                else annotate
                    (codes "fetching GitHub OIDC token")
                    (fetch_github_token env a opts.url))
            else ok opts.token)
          ≡ ok token
        → TokenFor env a opts need_token opts.url token
    chosen false given url absent is_need is_given k = inl (sym (ok_injective k))
    chosen true (c ∷ given) url absent is_need is_given k = inl (sym (ok_injective k))
    chosen true [] url true is_need is_given k = inl (sym (ok_injective k))
    chosen true [] url false is_need is_given k = inr (is_need, is_given, fetched url k)

site_of :
    (url site : Bytes)
    → Settled site
    → (url ≡ site) ⊎ (url ≡ site ++ (b'/' ∷ []))
    → trim_suffix b'/' url ≡ site
site_of url site settled (inl is) = ap (trim_suffix b'/') is ∙ settled
site_of url site settled (inr is) = ap (trim_suffix b'/') is ∙ trim_suffix-append site

-- Where the URL of the flags has at most one slash at its end, the client that the command builds
-- posts to that URL without the slash, and its token is the one of the flags, or, where one is
-- needed and none is given, one that GitHub Actions has given for that same URL as its audience.
pub build_client-TokenFor :
    (u : Tables) {Certificate Pool : Type 0} (p : Platform Certificate Pool) (env : Actions)
    (a : Asking) (flags : Flags) (need_token : Bool) (site : Bytes)
    (client : Client Certificate Pool)
    → Settled site
    → ((flags.url ≡ site) ⊎ (flags.url ≡ site ++ (b'/' ∷ [])))
    → build_client u p env a (normalize flags) need_token ≡ ok client
    → (client.config.url ≡ site) × TokenFor env a flags need_token site client.config.token
unfolding build_client normalize
build_client-TokenFor u p env a flags need_token site client settled is_site h =
    let opts = normalize flags in
    let fetched = bind-eq-ok (token_for env a opts need_token) _ h in
    let is =
      (new_iff u p (options_of opts fetched.0) client).0 ((annotate_iff _ _ _).0 fetched.2) in
    let trimmed : opts.url ≡ site = site_of flags.url site settled is_site in
    (
      is.same_url ∙ ap (trim_suffix b'/') trimmed ∙ settled,
      subst (λ t. TokenFor env a flags need_token site t) (sym is.same_token)
          (subst (λ url. TokenFor env a flags need_token url fetched.0) trimmed
            (token_for-TokenFor env a opts need_token fetched.0 fetched.1)),
    )
