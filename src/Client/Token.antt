-- ===== src/Client/Token.antt =====
-- `Health` and `FetchGitHubToken` of client.go. What Go's URL and JSON packages, the network and
-- the environment give is an argument.
use codesign.Common.{◌||◌, [], ◌∷◌, ◌++◌, List, Option, Bytes, codes, ◌==◌, is_empty, if◌then◌else◌}
use codesign.Common.Errors.{
  Error, Result, ok, err, wrap, annotate, sentinel, sign_failed, empty_oidc, no_actions_oidc, ◌>>=◌,
}
use codesign.Client.{Config, Exchange, unsent, replied, read_error_body}

abbrev pub health_path : Bytes
health_path = codes "/health"

-- A request with no body.
pub record Get : Type 0 where
  pub target : Bytes
  pub headers : List (Bytes × Bytes)

-- How the making of the request and the exchange go.
pub record Asking : Type 0 where
  pub creating : Result (Unit {0})
  pub exchange : Get → Exchange

-- The body of a reply of 200, with the error that ends it early.
abbrev pub successful : Bytes → Exchange → Result (Bytes × Option Error)
successful note (unsent e) = err (wrap note e)
successful note (replied status line body broken) =
    if status == 200
    then ok (body, broken)
    else err (wrap (line ++ (codes ": " ++ read_error_body body)) (sentinel sign_failed))

abbrev pub asked : Bytes → Asking → Get → Result (Bytes × Option Error)
asked note a get =
    annotate (codes "creating request") a.creating >>= λ _. successful note (a.exchange get)

unfoldable pub health : Config → Asking → Result (Unit {0})
health config a =
    asked (codes "checking health") a (record { target = config.url ++ health_path; headers = [] })
    >>= λ _. ok tt

-- The variables of the Actions runtime, the URL with the query's audience set, and the `value` of
-- the JSON that a reply starts with.
pub record Actions : Type 0 where
  pub request_url : Bytes
  pub request_token : Bytes
  pub with_audience : Bytes → Bytes → Result Bytes
  pub decode : Bytes → Option Error → Result Bytes

abbrev pub require_token : Bytes → Result Bytes
require_token [] = err (sentinel empty_oidc)
require_token (c ∷ token) = ok (c ∷ token)

unfoldable pub fetch_github_token : Actions → Asking → Bytes → Result Bytes
fetch_github_token env a audience =
    if is_empty env.request_url || is_empty env.request_token
    then err (sentinel no_actions_oidc)
    else (annotate (codes "parsing Actions OIDC URL") (env.with_audience env.request_url audience)
        >>= λ target.
            asked (codes "requesting OIDC token") a (record {
              target = target;
              headers = (codes "Authorization", codes "Bearer " ++ env.request_token) ∷ [];
            })
            >>= λ reply.
                annotate (codes "decoding OIDC token") (env.decode reply.0 reply.1) >>= λ value.
                require_token value)
