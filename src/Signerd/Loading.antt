-- ===== src/Signerd/Loading.antt =====
-- `loadConfig` of cmd/signerd/main.go and the search for a configuration file. The decoders of the
-- file and of the environment are code of other packages; they, `os.Stat`, `filepath.Join` and
-- `os.ReadFile` are parameters.
use codesign.Common.{
  Bool, true, false, List, [], ◌∷◌, ◌++◌, Bytes, codes, is_empty, not, ◌&&◌, if◌then◌else◌,
}
use codesign.Common.Errors.{Error, Result, ok, err, cause, fault, not_exist, annotate, ◌>>=◌}
use codesign.Common.Integers.{pos}
use codesign.Signerd.{Config}
use codesign.Text.Space.{trim_space}

pub record System : Type 0 where
  pub user_config_dir : Result Bytes
  pub is_windows : Bool
  pub program_data : Bytes
  pub join : Bytes → List Bytes → Bytes
  pub stat : Bytes → Result (Unit {0})
  pub unmarshal_file : Config → Bytes → Result Config
  pub unmarshal_env : Config → Result Config
  pub read_file : Bytes → Result Bytes

abbrev pub config_file_name : Bytes
config_file_name = codes "signerd.toml"

abbrev pub unix_system_dir : Bytes
unix_system_dir = codes "/etc/signerd"

abbrev pub user_candidate : System → Result Bytes → List Bytes
user_candidate sys (err e) = []
user_candidate sys (ok dir) = sys.join dir (codes "signerd" ∷ config_file_name ∷ []) ∷ []

abbrev pub system_candidate : System → List Bytes
system_candidate sys =
    if sys.is_windows
    then (if is_empty sys.program_data
        then []
        else sys.join sys.program_data (codes "signerd" ∷ config_file_name ∷ []) ∷ [])
    else sys.join unix_system_dir (config_file_name ∷ []) ∷ []

unfoldable pub default_config_candidates : System → List Bytes
default_config_candidates sys = user_candidate sys sys.user_config_dir ++ system_candidate sys

abbrev pub is_missing : Error → Bool
is_missing (fault not_exist) = true
is_missing _ = false

abbrev pub counts : Result (Unit {0}) → Bool
counts (ok _) = true
counts (err e) = not (is_missing (cause e))

unfoldable pub first_existing_config : System → List Bytes → Bytes
first_existing_config sys [] = []
first_existing_config sys (candidate ∷ candidates) =
    let rest = first_existing_config sys candidates in
    if counts (sys.stat candidate) then candidate else rest

abbrev pub path_or : Bytes → Bytes → Bytes
path_or found [] = found
path_or found (c ∷ path) = c ∷ path

abbrev pub read_config : System → Config → Bytes → Result Config
read_config sys config [] = ok config
read_config sys config (c ∷ path) =
    annotate (codes "reading config file") (sys.unmarshal_file config (c ∷ path))

unfoldable pub read_pin : System → Config → Result Config
read_pin sys config =
    if is_empty config.pin && not (is_empty config.pin_file)
    then (annotate (codes "reading pin file") (sys.read_file config.pin_file) >>= λ pin.
        ok (record config { pin = trim_space pin }))
    else ok config

-- Zero values but for the limit.
abbrev pub default_config : Config
default_config = record {
  listen = [];
  max_body_mib = pos 100;
  backend = [];
  command = [];
  pkcs11_module = [];
  cert_file = [];
  key_id = [];
  alias = [];
  store_type = [];
  pin = [];
  pin_file = [];
  timestamp_url = [];
  health_command = [];
  digest = [];
  name = [];
  url = [];
  work_dir = [];
  allow_unauthenticated_loopback = false;
  issuer = [];
  audience = [];
  allowed_repositories = [];
}

unfoldable pub load_config : System → Bytes → Result Config
load_config sys path =
    read_config sys default_config
      (path_or (first_existing_config sys (default_config_candidates sys)) path)
    >>= λ config.
        annotate (codes "parsing environment") (sys.unmarshal_env config) >>= λ overridden.
        read_pin sys overridden
