-- ===== src/Tests/Tokens.antt =====
-- Tokens: the key cache, and a JWT library that keeps its promise.
use mathlib.Core.List.{Memᴰ}
use codesign.Common.{
  ◌+◌, ◌*◌, ◌≡◌, refl, true, some, List, [], ◌∷◌, arith, Bytes, codes, equal, ◌==◌, if◌then◌else◌,
  any,
}
use codesign.Common.Options.{some_injective}
use codesign.Common.Errors.{Result, ok, err, fault, other}
use codesign.Common.Spacing.{Spaced}
use codesign.Oidc.Admission.{Accepted, IsSound, Verified, verify-Verified}
use codesign.Oidc.Cooldown.{Unfetched, Call, starts, starts-Spaced}
use codesign.Oidc.Freshness.{Ordered, Evolves, Current, key-Current}
use codesign.Oidc.Jwks.{Remote, get_json, check_jwks_uri, add_keys, load_keys}
use codesign.Oidc.Jwks.Origin.{FromIssuer, load_keys-FromIssuer}
use codesign.Oidc.Base64.{decode_base64, sextet, big_endian}
use codesign.Oidc.Keys.{
  refresh_cooldown, PublicKey, KeySet, lookup, insert, Cache, second, cache_fresh, Readings, commit,
  refresh, Others, key,
}
use codesign.Oidc.Verify.{
  Config, Claims, Options, Header, KeyFunc, ParseWithClaims, Weather, key_func, is_allowed, admit,
  new_verifier, verify, rs256,
}
use codesign.Text.Fold.{equal_fold}
use codesign.Text.Space.{trim_suffix, cut, trim_space}
use codesign.Text.Utf8.{runes_skip, decode_rune}
use codesign.Server.Auth.{Caller, authenticate}
use codesign.Server.Auth.Github.{github_verifier, closed_config, Admitted, authenticate-Admitted}
use codesign.Server.Headers.{bearer_token}
use codesign.Tests.Tables.{plain_tables, tiny_net}

abbrev pub the_key : PublicKey
the_key = record { modulus = 77; exponent = 5 }

abbrev key_set : KeySet
key_set = (codes "k1", the_key) ∷ []

abbrev alone : Others
alone = record { before = λ c. c; after = λ c. c }

-- Twelve minutes on the clock.
abbrev readings : Readings
readings = record {
  at_read = 720 * second;
  at_fresh = 720 * second + 1;
  at_cooling = 720 * second + 2;
  at_attempted = 721 * second;
  at_fetched = 721 * second + 1;
}

readings-Ordered : Ordered readings
readings-Ordered = omega arith

-- Keys of ten minutes ago, which are too old.
abbrev pub old_cache : Cache
old_cache = record {
  keys = key_set;
  fetched = some (120 * second);
  attempted = some (120 * second);
}

refreshed : (key alone readings (ok key_set) (codes "k1") old_cache).1 ≡ ok the_key
unfolding key cache_fresh refresh commit lookup equal
refreshed = refl

key-Current_example :
    Current readings.at_read
      (codes "k1")
      the_key
      (key alone readings (ok key_set) (codes "k1") old_cache).0
key-Current_example =
    key-Current alone readings (ok key_set) (codes "k1") old_cache readings-Ordered
      (λ d. Evolves.here) refreshed

abbrev outage : Result KeySet
outage = err (fault (other (codes "connection refused")))

-- Three calls: the second falls into the cooldown.
abbrev three_calls : List Call
three_calls =
    (readings, outage)
    ∷ (
      record readings {
        at_fresh = 722 * second;
        at_cooling = 723 * second;
        at_attempted = 724 * second;
        at_fetched = 724 * second;
      },
      outage,
    )
    ∷ (
      record readings {
        at_fresh = 782 * second;
        at_cooling = 783 * second;
        at_attempted = 784 * second;
        at_fetched = 784 * second;
      },
      ok key_set,
    )
    ∷ []

starts-Spaced_example :
    Spaced refresh_cooldown (some (120 * second)) (starts three_calls old_cache) × Unfetched
starts-Spaced_example = starts-Spaced three_calls old_cache (grind arith)

-- A token is good for key 77; its method is the first of the valid ones.
abbrev Signed : Bytes → PublicKey → Claims → Type 0
Signed token k claims = k.modulus ≡ 77

abbrev header_of : Bytes → Header
header_of alg = record { alg = alg; kid = some (codes "k1") }

abbrev pub claims_of : Options → Claims
claims_of o = record {
  issuer = o.issuer;
  audience = o.audience ∷ [];
  expires_at = some 10;
  not_before = some 3;
  issued_at = some 3;
  repository = codes "Me/App";
  repository_owner = codes "Me";
  ref = [];
  workflow = [];
  job_workflow_ref = [];
  event_name = [];
  actor = [];
  run_id = [];
}

abbrev judged : Options → Cache × Result PublicKey → Cache × Result Claims
judged o (c, err e) = (c, err e)
judged o (c, ok k) =
    (c, if k.modulus == 77 then ok (claims_of o) else err (fault (other (codes "bad signature"))))

abbrev with_methods : List Bytes → Options → KeyFunc → Cache → Cache × Result Claims
with_methods [] o f c = (c, err (fault (other (codes "bad method"))))
with_methods (m ∷ _) o f c = judged o (f (header_of m) c)

abbrev pub toy_parse : ParseWithClaims
toy_parse o token f c = with_methods o.valid_methods o f c

judged_ok :
    (o : Options) (p : Cache × Result PublicKey) (claims : Claims)
    → (judged o p).1 ≡ ok claims
    → (k : PublicKey) × (p ≡ ((judged o p).0, ok k)) × (k.modulus ≡ 77) × (claims ≡ claims_of o)
judged_ok o (c, err e) claims h = cc
judged_ok o (c, ok k) claims h = (k, refl, ground arith, ground arith)

toy_accepts :
    (ms : List Bytes) (o : Options) (token : Bytes) (f : KeyFunc) (c : Cache) (claims : Claims)
    → o.valid_methods ≡ ms
    → (with_methods ms o f c).1 ≡ ok claims
    → Accepted Signed 5 o token f c (with_methods ms o f c).0 claims
toy_accepts [] o token f c claims e h = cc
toy_accepts (m ∷ ms) o token f c claims e h =
    let (k, given, good, are) = judged_ok o (f (header_of m) c) claims h in
    rw are (record {
      header = header_of m;
      signing_key = k;
      valid_method = λ asked. rw e (Memᴰ.head refl);
      key_given = given;
      signed = good;
      issuer_matches = λ asked. refl;
      audience_matches = λ asked. Memᴰ.head refl;
      expires = λ asked. (10, refl);
      unexpired = λ t expires. omega (arith, some_injective expires);
      started = λ t begins. omega (arith, some_injective begins);
    })

toy_parse-IsSound : IsSound Signed 5 toy_parse
toy_parse-IsSound = record {
  accepted = λ o token f c claims h. toy_accepts o.valid_methods o token f c claims refl h;
}

abbrev pub config : Config
config = record {
  issuer = codes "https://i";
  audience = codes "https://sign";
  allowed_repositories = codes "me/app" ∷ [];
}

abbrev pub weather : Weather
weather = record { others = alone; readings = readings; loaded = ok key_set }

accepted_claims :
    (verify plain_tables toy_parse (new_verifier config) weather (codes "t") old_cache).1
    ≡ ok (
        claims_of (record {
          valid_methods = rs256 ∷ [];
          issuer = codes "https://i";
          audience = codes "https://sign";
          expiration_required = true;
        }))
unfolding new_verifier verify key_func key cache_fresh refresh commit lookup equal admit is_allowed
    any equal_fold runes_skip decode_rune
accepted_claims = refl

abbrev pub options : Options
options = record {
  valid_methods = rs256 ∷ [];
  issuer = codes "https://i";
  audience = codes "https://sign";
  expiration_required = true;
}

verify-Verified_example :
    Verified plain_tables Signed 5 toy_parse config weather
      (codes "t")
      old_cache
      (verify plain_tables toy_parse (new_verifier config) weather (codes "t") old_cache).0
      (claims_of options)
verify-Verified_example =
    verify-Verified plain_tables Signed 5 toy_parse config weather (codes "t") old_cache
      (claims_of options) toy_parse-IsSound readings-Ordered (λ d. Evolves.here) accepted_claims

abbrev action : Caller
action = record { remote_addr = codes "[::1]:80"; authorization = codes "Bearer t" }

authenticate-LetIn :
    (authenticate plain_tables tiny_net
      (closed_config (github_verifier plain_tables toy_parse (new_verifier config) weather))
      action
      old_cache).1
    ≡ ok (codes "Me/App")
unfolding new_verifier authenticate bearer_token cut trim_space verify key_func key cache_fresh
    refresh commit lookup equal admit is_allowed any equal_fold runes_skip decode_rune
authenticate-LetIn = refl

authenticate-Admitted_example :
    Admitted plain_tables tiny_net Signed 5 toy_parse config weather action old_cache
      (codes "Me/App")
authenticate-Admitted_example =
    authenticate-Admitted plain_tables tiny_net Signed 5 toy_parse config weather action old_cache
      (codes "Me/App") toy_parse-IsSound readings-Ordered (λ d. Evolves.here) authenticate-LetIn

-- An issuer with one key; every address is on its host.
abbrev toy_remote : Remote
toy_remote = record {
  parse_url = λ url. ok (record { scheme = codes "https"; host = codes "i" });
  new_request = λ url. ok tt;
  get = λ url. ok (record { status = 200; body = [] });
  decode_discovery = λ body. ok (codes "https://i/jwks");
  decode_key_set = λ body.
      ok (record { kty = codes "RSA"; kid = codes "k1"; n = codes "TQ"; e = codes "BQ" } ∷ []);
}

loaded_key_set : load_keys toy_remote (codes "https://i/") ≡ ok key_set
unfolding load_keys get_json check_jwks_uri trim_suffix equal add_keys decode_base64 sextet insert
    big_endian
loaded_key_set = refl

load_keys-FromIssuer_example : FromIssuer toy_remote (codes "https://i/") key_set
load_keys-FromIssuer_example =
    load_keys-FromIssuer toy_remote (codes "https://i/") key_set loaded_key_set
