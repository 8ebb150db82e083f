-- ===== src/Command.antt =====
-- cmd/codesign/main.go: the client's command line. What `flag` has parsed, the environment and the
-- system calls of each file are arguments; the version flag only prints.
pub mod Files
pub mod Audience
use codesign.Common.{
  ℕ, zero, suc, Bool, true, false, not, ◌&&◌, [], ◌∷◌, ◌++◌, List, Option, none, some, Bytes, codes,
  is_empty, if◌then◌else◌, length, ◌==◌,
}
use codesign.Common.Errors.{
  Error, Result, ok, err, wrap, annotate, sentinel, no_url, no_files, one_output, ◌>>=◌,
}
use codesign.Common.Integers.{ℤ}
use codesign.Common.Store.{Store}
use codesign.Client.{Config, Attempt, SignOptions}
use codesign.Client.New.{Options, Platform, Client, new}
use codesign.Client.Replace.{Writing, sign_file}
use codesign.Client.Token.{Actions, Asking, fetch_github_token, health}
use codesign.Text.Fold.{Tables}
use codesign.Text.Space.{trim_suffix}

pub record Flags : Type 0 where
  pub url : Bytes
  pub cert : Bytes
  pub key : Bytes
  pub root_ca : Bytes
  pub token : Bytes
  pub name : Bytes
  pub website : Bytes
  pub output : Bytes
  pub retries : ℤ
  pub timeout : ℤ
  pub health : Bool

-- The end of `parseFlags`.
unfoldable pub normalize : Flags → Flags
normalize opts = record opts { url = trim_suffix b'/' opts.url }

abbrev pub options_of : Flags → Bytes → Options
options_of opts token = record {
  url = opts.url;
  client_cert = opts.cert;
  client_key = opts.key;
  root_ca = opts.root_ca;
  token = token;
  retries = opts.retries;
  timeout = opts.timeout;
}

-- The token of the flags, or one that GitHub Actions gives for the URL.
unfoldable pub token_for : Actions → Asking → Flags → Bool → Result Bytes
token_for env a opts need_token =
    if need_token && is_empty opts.token && not (is_empty env.request_url)
    then (if is_empty opts.url
        then err (sentinel no_url)
        else annotate (codes "fetching GitHub OIDC token") (fetch_github_token env a opts.url))
    else ok opts.token

unfoldable pub build_client :
    Tables
    → {Certificate Pool : Type 0} → Platform Certificate Pool
    → Actions
    → Asking
    → Flags
    → Bool
    → Result (Client Certificate Pool)
build_client u p env a opts need_token = token_for env a opts need_token >>= λ token.
    annotate (codes "building client") (new u p (options_of opts token))

-- What the network and the file system do while one file is signed.
pub record Turn : Type 0 where
  pub web : ℕ → Attempt
  pub writing : Writing

abbrev pub signed_next :
    Bytes
    → Store × Result (Unit {0})
    → (Store → Store × Result (Unit {0}))
    → Store × Result (Unit {0})
signed_next file (s, err e) next = (s, err (wrap (codes "signing " ++ file) e))
signed_next file (s, ok _) next = next s

-- The loop of `signFiles`; the turns are numbered from the first file on.
unfoldable pub sign_all :
    Config → (ℕ → Turn) → Bytes → SignOptions → ℕ → List Bytes → Store → Store × Result (Unit {0})
unfolding sign_file
sign_all config turns output opts k [] s = (s, ok tt)
sign_all config turns output opts k (file ∷ files) s =
    signed_next file (sign_file config (turns k).web (turns k).writing file output opts s)
      (λ t. sign_all config turns output opts (suc k) files t)

unfoldable pub sign_files :
    Config → (ℕ → Turn) → Flags → List Bytes → Store → Store × Result (Unit {0})
sign_files config turns opts files s =
    if is_empty files
    then (s, err (sentinel no_files))
    else if not (is_empty opts.output) && not (length files == 1)
    then (s, err (sentinel one_output))
    else sign_all config turns opts.output (record { name = opts.name; url = opts.website }) 0 files
        s

abbrev pub run_health : Config → Asking → Store → Store × Result (Unit {0})
run_health config a s = (s, annotate (codes "health check") (health config a))

abbrev pub run_with :
    {Certificate Pool : Type 0}
    → Result (Client Certificate Pool)
    → Asking
    → (ℕ → Turn)
    → Flags
    → List Bytes
    → Store
    → Store × Result (Unit {0})
run_with (err e) a turns opts files s = (s, err e)
run_with (ok client) a turns opts files s =
    if opts.health
    then run_health client.config a s
    else sign_files client.config turns opts files s

-- `run`, behind the version flag; the token and the health check ask the network in their own way.
unfoldable pub run :
    Tables
    → {Certificate Pool : Type 0} → Platform Certificate Pool
    → Actions
    → Asking
    → Asking
    → (ℕ → Turn)
    → Flags
    → List Bytes
    → Store
    → Store × Result (Unit {0})
run u p env fetching checking turns flags files s =
    let opts = normalize flags in
    run_with (build_client u p env fetching opts (not opts.health)) checking turns opts files s
