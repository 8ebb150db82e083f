-- ===== src/Tests/Requests.antt =====
-- Requests: their headers and their callers.
use codesign.Common.{◌≡◌, ◌↔◌, ◌⊎◌, refl, true, false, none, some, codes, equal, any, if◌then◌else◌}
use codesign.Common.Errors.{ok, err, sentinel, bad_metadata, no_token}
use codesign.Server.Auth.{Verifier, Config, Caller, authenticate}
use codesign.Server.Auth.Gate.{Skips, Vouched, authenticate_iff}
use codesign.Server.Headers.{bearer_token, sanitize_metadata, signing_request}
use codesign.Server.Headers.Bearer.{Carries, bearer_token_iff}
use codesign.Server.Loopback.{is_loopback, is_loopback_ip}
use codesign.Text.Fold.{equal_fold}
use codesign.Text.Space.{trim_space, cut}
use codesign.Text.Utf8.{runes_skip, decode_rune}
use codesign.Tests.Tables.{plain_tables, plain_folds, tiny_net}

lower_case_scheme : bearer_token plain_tables (codes "bearer  abc ") ≡ some (codes "abc")
unfolding bearer_token cut trim_space equal_fold runes_skip decode_rune equal
lower_case_scheme = refl

other_scheme : bearer_token plain_tables (codes "Basic abc") ≡ none
unfolding bearer_token cut trim_space equal_fold runes_skip decode_rune equal
other_scheme = refl

bearer_token_iff_example :
    (bearer_token plain_tables (codes "Bearer abc") ≡ some (codes "abc"))
    ↔ Carries (codes "Bearer abc") (codes "abc")
bearer_token_iff_example =
    bearer_token_iff plain_tables plain_folds (codes "Bearer abc") (codes "abc")

refused_metadata :
    signing_request (codes "in") (codes "out") (codes "My App") (codes "a\nb")
    ≡ err (sentinel bad_metadata)
unfolding signing_request sanitize_metadata trim_space any
refused_metadata = refl

-- A verifier that knows one token.
abbrev one_token : Verifier (Unit {0})
one_token = record {
  verify = λ s token.
      (s, if equal token (codes "abc") then ok (codes "me/app") else err (sentinel no_token));
}

abbrev tunnel_config : Config (Unit {0})
tunnel_config = record { allow_unauthenticated_loopback = true; verifier = some one_token }

abbrev proxied : Caller
proxied = record { remote_addr = codes "[::1]:80"; authorization = codes "Bearer abc" }

loopback_skips :
    (authenticate plain_tables tiny_net tunnel_config proxied tt).1 ≡ ok (codes "loopback")
unfolding authenticate is_loopback is_loopback_ip equal
loopback_skips = refl

gate_asks :
    (authenticate plain_tables tiny_net
      (record tunnel_config { allow_unauthenticated_loopback = false })
      proxied
      tt).1
    ≡ ok (codes "me/app")
unfolding authenticate is_loopback is_loopback_ip bearer_token cut trim_space equal_fold runes_skip
    decode_rune equal
gate_asks = refl

authenticate_iff_example :
    ((authenticate plain_tables tiny_net tunnel_config proxied tt).1 ≡ ok (codes "loopback")) ↔ (
      (Skips plain_tables tiny_net tunnel_config proxied tt × (codes "loopback" ≡ codes "loopback"))
      ⊎ ((¬ Skips plain_tables tiny_net tunnel_config proxied tt)
          × Vouched plain_tables tiny_net tunnel_config proxied tt (codes "loopback")))
authenticate_iff_example =
    authenticate_iff plain_tables tiny_net tunnel_config proxied tt (codes "loopback")
