-- ===== src/Tests/Daemon.antt =====
-- A configuration of the daemon that passes, and one that does not.
use codesign.Common.{any, ◌≢◌, ◌≡◌, refl, true, false, [], ◌∷◌, codes, equal}
use codesign.Common.Integers.{pos}
use codesign.Common.Errors.{ok, err, sentinel, bad_max_body}
use codesign.Signerd.{Config, Stats, backend_of, validate_limits, validate_ossl, validate_config}
use codesign.Common.Errors.{fault, not_exist}
use codesign.Backends.Osslsigncode.{new_osslsigncode}
use codesign.Oidc.Verify.{Config as OidcConfig}
use codesign.Server.Construction.{Settings, new_server}
use codesign.Signerd.Assembly.{
  Chosen, with_osslsigncode, ossl_config, settings_for, new_daemon, build_signer, start,
}
use codesign.Signerd.Loading.{
  System, first_existing_config, default_config_candidates, read_pin, load_config,
}
use codesign.Signerd.Started.{Started, start-Started}
use codesign.Signerd.Healthy.{HealthyBy, signer_health, signer_health-HealthyBy}
use codesign.Backends.{
  default_token_health, run_health, health_of, lists_certificates, asks_for_cert,
}
use codesign.Backends.Osslsigncode.{ossl_health}
use codesign.Text.Contains.{contains, has_prefix}
use codesign.Tests.Tools.{tool, work_files}
use codesign.Signerd.Ready.{Ready, validate_config-Ready}
use codesign.Text.Fold.{to_lower}
use codesign.Text.Space.{trim_space}
use codesign.Text.Utf8.{runes_skip, decode_rune, encode_rune}
use codesign.Tests.Tables.{plain_tables}
use mathlib.Core.List.{flat_map}

abbrev all_regular : Stats
all_regular path = ok true

abbrev config : Config
config = record {
  listen = [];
  command = [];
  key_id = [];
  alias = [];
  store_type = [];
  pin = codes "123456";
  pin_file = [];
  timestamp_url = [];
  digest = [];
  name = [];
  url = [];
  work_dir = [];
  allow_unauthenticated_loopback = false;
  issuer = [];
  max_body_mib = pos 100;
  backend = codes "osslsigncode";
  pkcs11_module = codes "libykcs11.so";
  cert_file = codes "chain.pem";
  health_command = [];
  audience = codes "https://sign";
  allowed_repositories = codes "me/app" ∷ [];
}

config_passes : validate_config plain_tables all_regular false config ≡ ok tt
unfolding validate_config validate_limits validate_ossl backend_of to_lower runes_skip decode_rune
    encode_rune flat_map trim_space equal
config_passes = refl

too_large :
    validate_config plain_tables all_regular false
      (record config { max_body_mib = pos 8796093022208 })
    ≡ err (sentinel bad_max_body)
unfolding validate_config validate_limits
too_large = refl

validate_config-Ready_example : Ready plain_tables all_regular false config
validate_config-Ready_example =
    validate_config-Ready plain_tables all_regular false config config_passes

-- A system with a configuration file in the directory of the system.
abbrev tiny_system : System
tiny_system = record {
  user_config_dir = err (fault not_exist);
  is_windows = false;
  program_data = [];
  join = λ dir names. dir;
  stat = λ path. ok tt;
  unmarshal_file = λ c path. ok (record config { pin = []; pin_file = codes "pin" });
  unmarshal_env = λ c. ok c;
  read_file = λ path. ok (codes " 1234\n");
}

abbrev loaded_config : Config
loaded_config = record config { pin = codes "1234"; pin_file = codes "pin" }

abbrev daemon : Settings Chosen OidcConfig
daemon =
    new_server (codes "tmp") (
      settings_for loaded_config (with_osslsigncode (new_osslsigncode (ossl_config loaded_config))))

daemon_starts : start plain_tables all_regular false (codes "tmp") tiny_system [] ≡ ok daemon
unfolding start load_config first_existing_config default_config_candidates read_pin validate_config
    validate_limits trim_space backend_of to_lower flat_map runes_skip encode_rune equal
    validate_ossl new_daemon build_signer
daemon_starts = refl

start-Started_example : Started plain_tables all_regular false tiny_system [] daemon
start-Started_example =
    start-Started plain_tables all_regular false (codes "tmp") tiny_system [] daemon daemon_starts

abbrev token_signer : Chosen
token_signer = with_osslsigncode (new_osslsigncode (ossl_config config))

is_built : build_signer plain_tables false config ≡ ok token_signer
unfolding build_signer backend_of trim_space to_lower flat_map runes_skip decode_rune encode_rune
    equal
is_built = refl

is_healthy : (signer_health tool token_signer work_files).1 ≡ ok tt
unfolding signer_health ossl_health health_of new_osslsigncode run_health default_token_health
    lists_certificates asks_for_cert contains has_prefix trim_space any equal
is_healthy = refl

has_module : config.pkcs11_module ≢ []
has_module k = cc

signer_health-HealthyBy_example :
    HealthyBy tool false (codes "libykcs11.so") work_files token_signer
signer_health-HealthyBy_example =
    signer_health-HealthyBy plain_tables tool false config token_signer work_files refl has_module
      is_built is_healthy
