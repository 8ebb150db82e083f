-- ===== src/Oidc/Jwks/Origin.antt =====
-- Where the keys come from.
use codesign.Common.{
  ◌≡◌, ◌≢◌, refl, sym, ap, ◌∙◌, ◌⊎◌, inl, inr, true, false, List, [], ◌∷◌, Option, none, some,
  arith, Bytes, codes, equal, equal_iff, is_empty, if◌then◌else◌, Bool-cases,
}
use codesign.Common.Errors.{annotate, Result, ok, err, ◌>>=◌, bind-eq-ok}
use codesign.Oidc.Base64.{decode_base64}
use codesign.Oidc.Keys.{PublicKey, KeySet, lookup, insert}
use codesign.Oidc.Jwks.{
  Url, Jwk, Remote, get_json, same_origin, check_jwks_uri, decoded, is_skipped, public_key, add_key,
  add_keys, discovery_url, present, load_keys,
}

-- The key is the number pair of this entry, an RSA key of that id.
pub record Describes (j : Jwk) (id : Bytes) (k : PublicKey) : Type 0 where
  pub is_rsa : j.kty ≡ codes "RSA"
  pub has_id : j.kid ≡ id
  pub id_ne_nil : id ≢ []
  pub modulus : Bytes
  pub exponent : Bytes
  pub modulus_is : decode_base64 j.n ≡ some modulus
  pub exponent_is : decode_base64 j.e ≡ some exponent
  pub key_is : k ≡ public_key modulus exponent

lookup-insert :
    (id i : Bytes) (k : PublicKey) (keys : KeySet)
    → lookup i (insert id k keys) ≡ (if equal id i then some k else lookup i keys)
unfolding lookup insert
lookup-insert id i k [] = refl
lookup-insert id i k ((a, j) ∷ keys) =
    ground (arith, equal_iff a id, equal_iff id i, equal_iff a i, lookup-insert id i k keys)

decoded_ok : (id : Bytes) (o : Option Bytes) {b : Bytes} → decoded id o ≡ ok b → o ≡ some b
decoded_ok id none h = cc
decoded_ok id (some a) h = cc

annotate_ok {ℓ} :
    {A : Type ℓ} (note : Bytes) (r : Result A) {a : A} → annotate note r ≡ ok a → r ≡ ok a
annotate_ok note (ok b) h = h
annotate_ok note (err e) h = cc

both_decoded :
    (id : Bytes) (rm re : Result Bytes) (keys : KeySet) {keys' : KeySet}
    → (do m ← rm; e ← re; ok (insert id (public_key m e) keys)) ≡ ok keys'
    → (m : Bytes) × (e : Bytes) × (rm ≡ ok m)
      × (re ≡ ok e)
      × (insert id (public_key m e) keys ≡ keys')
both_decoded id (err x) re keys h = cc
both_decoded id (ok m) (err x) keys h = cc
both_decoded id (ok m) (ok e) keys h = (m, e, refl, refl, cc)

not_skipped :
    (j : Jwk) → is_skipped j ≡ false → (equal j.kty (codes "RSA") ≡ true) × (is_empty j.kid ≡ false)
not_skipped j h = ground arith

is_empty-ne-nil : (s : Bytes) → is_empty s ≡ false → s ≢ []
is_empty-ne-nil s h e = cc (rw e at h)

-- After an entry that is taken: its key under its id, and the old keys elsewhere.
taken_source :
    (j : Jwk) (keys keys' : KeySet) (id : Bytes) (k : PublicKey)
    → is_skipped j ≡ false
    → (do
      m ← decoded j.kid (decode_base64 j.n)
      e ← decoded j.kid (decode_base64 j.e)
      ok (insert j.kid (public_key m e) keys))
      ≡ ok keys'
    → lookup id keys' ≡ some k
    → Describes j id k ⊎ (lookup id keys ≡ some k)
taken_source j keys keys' id k taken h at_id =
    let (m, e, is_m, is_e, inserted) = both_decoded j.kid _ _ keys h in
    let now =
      sym (lookup-insert j.kid id (public_key m e) keys) ∙ ap (lookup id) inserted ∙ at_id in
    elim (Bool-cases (equal j.kid id)) [
      | inr elsewhere ↦ inr (rw elsewhere at now)
      | inl same ↦
          let same_id = (equal_iff j.kid id).0 same in
          let (rsa, has_id) = not_skipped j taken in
          inl (record {
            is_rsa = (equal_iff j.kty (codes "RSA")).0 rsa;
            has_id = same_id;
            id_ne_nil = rw same_id at (is_empty-ne-nil j.kid has_id);
            modulus = m;
            exponent = e;
            modulus_is = decoded_ok j.kid _ is_m;
            exponent_is = decoded_ok j.kid _ is_e;
            key_is = cc (rw same at now);
          })
    ]

add_key_source :
    (j : Jwk) (keys keys' : KeySet) (id : Bytes) (k : PublicKey)
    → add_key j keys ≡ ok keys'
    → lookup id keys' ≡ some k
    → Describes j id k ⊎ (lookup id keys ≡ some k)
unfolding add_key
add_key_source j keys keys' id k h at_id = elim (Bool-cases (is_skipped j)) [
  | inl skipped ↦
      let same : ok keys ≡ ok keys' = rw skipped at h in
      let unchanged : keys' ≡ keys = cc in inr (rw unchanged at at_id)
  | inr taken ↦ taken_source j keys keys' id k taken (rw taken at h) at_id
]

-- One of the entries describes the key.
pub data Published (id : Bytes) (k : PublicKey) : List Jwk → Type 0 where
  first : {j : Jwk} {js : List Jwk} → Describes j id k → Published id k (j ∷ js)
  later : {j : Jwk} {js : List Jwk} → Published id k js → Published id k (j ∷ js)

add_keys_source :
    (js : List Jwk) (keys keys' : KeySet) (id : Bytes) (k : PublicKey)
    → add_keys js keys ≡ ok keys'
    → lookup id keys' ≡ some k
    → Published id k js ⊎ (lookup id keys ≡ some k)
unfolding add_keys
add_keys_source [] keys keys' id k h at_id =
    let unchanged : keys' ≡ keys = cc in inr (rw unchanged at at_id)
add_keys_source (j ∷ js) keys keys' id k h at_id =
    let (next, is_next, rest) = bind-eq-ok (add_key j keys) (add_keys js) h in
    elim (add_keys_source js next keys' id k rest at_id) [
      | inl among ↦ inl (later among)
      | inr old ↦ elim (add_key_source j keys next id k is_next old) [
        | inl described ↦ inl (first described)
        | inr before ↦ inr before
      ]
    ]

same_origin_ok : (a b : Url) → same_origin a b ≡ ok tt → (b.scheme ≡ a.scheme) × (b.host ≡ a.host)
same_origin_ok a b h = ground (arith, equal_iff b.scheme a.scheme, equal_iff b.host a.host)

-- The key set is the document at an address of the issuer's own scheme and host, which the issuer's
-- discovery document names, and each key is an entry of it.
pub record FromIssuer (remote : Remote) (issuer : Bytes) (keys : KeySet) : Type 0 where
  pub uri : Bytes
  pub issuer_url : Url
  pub jwks_url : Url
  pub entries : List Jwk
  pub discovered : get_json remote remote.decode_discovery (discovery_url issuer) ≡ ok uri
  pub issuer_parses : remote.parse_url issuer ≡ ok issuer_url
  pub uri_parses : remote.parse_url uri ≡ ok jwks_url
  pub same_scheme : jwks_url.scheme ≡ issuer_url.scheme
  pub same_host : jwks_url.host ≡ issuer_url.host
  pub downloaded : get_json remote remote.decode_key_set uri ≡ ok entries
  pub published : (id : Bytes) (k : PublicKey) → lookup id keys ≡ some k → Published id k entries

present_ok : (a : Bytes) {b : Bytes} → present a ≡ ok b → a ≡ b
present_ok [] h = cc
present_ok (c ∷ s) h = cc

check_ok :
    (remote : Remote) (issuer uri : Bytes) {x : Unit {0}}
    → check_jwks_uri remote issuer uri ≡ ok x
    → (a : Url) × (b : Url) × (remote.parse_url issuer ≡ ok a)
      × (remote.parse_url uri ≡ ok b)
      × (same_origin a b ≡ ok tt)
unfolding check_jwks_uri
check_ok remote issuer uri h =
    let (a, is_a, h1) =
      bind-eq-ok (annotate (codes "parsing issuer") (remote.parse_url issuer)) _ h in
    let (b, is_b, h2) =
      bind-eq-ok (annotate (codes "parsing jwks_uri") (remote.parse_url uri)) (same_origin a) h1 in
    (a, b, annotate_ok _ _ is_a, annotate_ok _ _ is_b, h2)

nothing_at : (id : Bytes) (k : PublicKey) → ¬ (lookup id [] ≡ some k)
unfolding lookup
nothing_at id k h = cc

-- When `loadKeys` succeeds, its keys are from the issuer: the address of the key set is the one in
-- the discovery document and has the scheme and the host of the configured issuer, and every key is
-- an RSA entry of that set with a nonempty id, decoded.
pub load_keys-FromIssuer :
    (remote : Remote) (issuer : Bytes) (keys : KeySet)
    → load_keys remote issuer ≡ ok keys
    → FromIssuer remote issuer keys
unfolding load_keys
load_keys-FromIssuer remote issuer keys h =
    let (d, is_d, h1) =
      bind-eq-ok
        (annotate (codes "issuer discovery")
          (get_json remote remote.decode_discovery (discovery_url issuer)))
        _ h in
    let (uri, is_uri, h2) = bind-eq-ok (present d) _ h1 in
    let (x, checked, h3) = bind-eq-ok (check_jwks_uri remote issuer uri) _ h2 in
    let (entries, is_set, added) =
      bind-eq-ok (annotate (codes "fetching JWKS") (get_json remote remote.decode_key_set uri)) _
        h3 in
    let (a, b, is_a, is_b, same) = check_ok remote issuer uri checked in
    let (scheme, host) = same_origin_ok a b same in
    record {
      uri = uri;
      issuer_url = a;
      jwks_url = b;
      entries = entries;
      discovered = annotate_ok _ _ is_d ∙ ap ok (present_ok d is_uri);
      issuer_parses = is_a;
      uri_parses = is_b;
      same_scheme = scheme;
      same_host = host;
      downloaded = annotate_ok _ _ is_set;
      published = λ id k at_id. elim (add_keys_source entries [] keys id k added at_id) [
        | inl among ↦ among
        | inr never ↦ absurd (nothing_at id k never)
      ];
    }
