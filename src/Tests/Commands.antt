-- ===== src/Tests/Commands.antt =====
-- The construction of a client, and the command line.
use codesign.Common.{
  inr, ℕ, ◌≡◌, ◌↔◌, refl, true, false, none, some, [], ◌∷◌, Bytes, codes, equal, any,
}
use codesign.Common.Errors.{ok}
use codesign.Common.Integers.{pos, negsuc}
use codesign.Common.Store.{Store, content}
use codesign.Client.New.{
  Options, Url, Platform, Client, new, secure_url, build_tls, load_key_pair, load_pem,
}
use codesign.Client.New.Secure.{IsClientOf, new_iff}
use codesign.Client.{replied}
use codesign.Client.Token.{Actions, Asking, fetch_github_token}
use codesign.Command.Audience.{Settled, TokenFor, build_client-TokenFor}
use codesign.Command.{build_client, token_for, Flags, Turn, normalize, sign_files}
use codesign.Command.Files.{InOrder, Distinct, AllNew, sign_files-InOrder}
use codesign.Tests.Clients.{config, flaky}
use codesign.Tests.Tables.{plain_tables, tiny_net}
use codesign.Text.Contains.{has_prefix}
use codesign.Text.Fold.{to_lower}
use codesign.Text.Utf8.{runes_skip, encode_rune, decode_rune}
use mathlib.Core.List.{flat_map}
use codesign.Text.Space.{trim_suffix}

abbrev local_url : Url
local_url = record { scheme = codes "HTTPS"; host = codes "sign"; hostname = codes "sign" }

-- Every URL is the same one; a certificate is the key next to it.
abbrev platform : Platform Bytes Bytes
platform = record {
  parse_url = λ url. ok local_url;
  parse_ip = tiny_net.parse_ip;
  read_file = λ path. ok path;
  key_pair = λ cert key. ok key;
  pool_of = λ pem. some pem;
  has_transport = true;
}

abbrev settings : Options
settings = record {
  url = codes "https://sign/";
  client_cert = codes "c.pem";
  client_key = codes "k.pem";
  root_ca = [];
  token = codes "abc";
  retries = negsuc 2;
  timeout = pos 0;
}

abbrev made : Client Bytes Bytes
made = record {
  config = record { url = codes "https://sign"; token = codes "abc"; retries = 0 };
  timeout = 300000000000;
  tls = some (record { certificate = some (codes "k.pem"); root_cas = none });
}

is_made : new plain_tables platform settings ≡ ok made
unfolding new secure_url equal to_lower flat_map runes_skip encode_rune decode_rune build_tls
    load_key_pair load_pem has_prefix trim_suffix
is_made = refl

new_iff_example :
    (new plain_tables platform settings ≡ ok made) ↔ IsClientOf plain_tables platform settings made
new_iff_example = new_iff plain_tables platform settings made

abbrev flags : Flags
flags = record {
  url = codes "https://sign//";
  cert = [];
  key = [];
  root_ca = [];
  token = [];
  name = codes "App";
  website = [];
  output = [];
  retries = pos 2;
  timeout = pos 0;
  health = false;
}

abbrev one_slash : Flags
one_slash = record flags { url = codes "https://sign/" }

-- A runtime that gives the audience for the token.
abbrev echo : Actions
echo = record {
  request_url = codes "https://actions";
  request_token = codes "r";
  with_audience = λ url audience. ok audience;
  decode = λ body broken. ok body;
}

abbrev asking : Asking
asking = record { creating = ok tt; exchange = λ get. replied 200 (codes "200 OK") get.target none }

abbrev fetching_client : Bytes → Client Bytes Bytes
fetching_client audience = record {
  config = record { url = codes "https://sign"; token = audience; retries = 2 };
  timeout = 300000000000;
  tls = none;
}

one_audience :
    build_client plain_tables platform echo asking (normalize one_slash) true
    ≡ ok (fetching_client (codes "https://sign"))
unfolding build_client token_for fetch_github_token normalize new secure_url equal to_lower flat_map
    runes_skip encode_rune decode_rune build_tls trim_suffix
one_audience = refl

-- The flags lose one slash, and `New` takes off another one: the audience is not the client's URL.
two_slashes :
    build_client plain_tables platform echo asking (normalize flags) true
    ≡ ok (fetching_client (codes "https://sign/"))
unfolding build_client token_for fetch_github_token normalize new secure_url equal to_lower flat_map
    runes_skip encode_rune decode_rune build_tls trim_suffix
two_slashes = refl

sign-Settled : Settled (codes "https://sign")
unfolding trim_suffix
sign-Settled = refl

build_client-TokenFor_example :
    ((fetching_client (codes "https://sign")).config.url ≡ codes "https://sign")
    × TokenFor echo asking one_slash true (codes "https://sign") (codes "https://sign")
build_client-TokenFor_example =
    build_client-TokenFor plain_tables platform echo asking one_slash true (codes "https://sign")
      (fetching_client (codes "https://sign")) sign-Settled (inr refl) one_audience

abbrev turns : ℕ → Turn
turns k = record {
  web = flaky;
  writing = record {
    reading = ok tt;
    temp = ok (codes "x.signing-1");
    written = none;
    closed = ok tt;
    output_stat = ok 420;
    input_stat = ok 420;
    chmod = λ mode. ok tt;
    removed = ok tt;
    renamed = ok tt;
  };
}

abbrev two_files : Store
two_files = (codes "a.exe", codes "file") ∷ (codes "b.exe", codes "other") ∷ []

turns-AllNew : AllNew turns two_files
unfolding content equal
turns-AllNew k temp is_temp = fresh temp (cc)
  where
    fresh : (t : Bytes) → t ≡ codes "x.signing-1" → content t two_files ≡ none
    fresh t same = rw same refl

names-Distinct : Distinct (codes "a.exe" ∷ codes "b.exe" ∷ [])
unfolding any equal
names-Distinct = (refl, (refl, tt))

sign_files-InOrder_example :
    InOrder config turns
      (record { name = codes "App"; url = [] })
      (codes "a.exe" ∷ codes "b.exe" ∷ [])
      two_files
      (sign_files config turns flags (codes "a.exe" ∷ codes "b.exe" ∷ []) two_files)
sign_files-InOrder_example =
    sign_files-InOrder config turns flags (codes "a.exe") (codes "b.exe" ∷ []) two_files refl
      names-Distinct turns-AllNew
