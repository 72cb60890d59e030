-- ===== src/Examples/Projects.antt =====
-- The projects of a run on concrete data: settings, ownership, reconciliation.
use ingestkit.Prelude.{
  ◌≡◌, refl, ◌⊎◌, true, false, none, some, List, [], ◌∷◌, ◌++◌, Bytes, strip_prefix, bytes_eq,
  codes, ok, err, pos, map, All, arith,
}
use ingestkit.Prelude.Assoc.{Assoc, Distinct, lookup, insert}
use ingestkit.Prelude.Strings.{
  space_before, space_behind, trim_left, trim_right, trim_space, cut, has_prefix, contains, split,
  lines,
}
use ingestkit.Examples.Settings.{token_decoder}
use ingestkit.Config.ApiKeys.{
  JsonToken, open_brace, close_brace, text, parse_api_keys, read_pairs, read_pair, read_key,
  read_text, read_tenant, decoded_tenant, read_brace,
}
use ingestkit.Event.{valid_tenant, valid_text, utf8_valid, contains_nul}
use ingestkit.Api.App.{App, new_app}
use ingestkit.Runenv.DeploymentConfig.{
  DeploymentConfig, cannot_open, EnvFile, is_secret, is_label, label_tail, valid_deployment_domain,
  assign, parsed_keys, config_of_values, scan_lines, read_values, read_deployment_config,
}
use ingestkit.Runenv.DeploymentConfig.Writing.{render, IsSetting, read_values-render}
use ingestkit.Runenv.DeploymentConfig.Trust.{read_deployment_config-new_app}
use ingestkit.Runenv.Shell.{Failure, World, Os}
use ingestkit.Runenv.Stack.{Stack}
use ingestkit.Runenv.Stack.Ownership.{Guarded, stopping, perform, command_of, perform-Guarded}
use ingestkit.Runenv.Startup.{Options, Machine, plain}
use ingestkit.Runenv.Startup.Launch.{start}
use ingestkit.Runenv.Startup.Attempts.{Refused, Tried, start-Tried}

abbrev two_settings : Assoc Bytes
two_settings = (codes "DOMAIN", codes "a.b") ∷ (codes "LOG", []) ∷ []

domain-IsSetting : IsSetting (codes "DOMAIN", codes "a.b")
unfolding space_before space_behind
domain-IsSetting = record {
  first = b'D';
  rest = codes "OMAIN";
  named = refl;
  no_comment = refl;
  name_trimmed = record { left = refl; right = refl };
  no_equals = (refl, (refl, (refl, (refl, (refl, (refl, tt))))));
  trimmed = record { left = refl; right = refl };
  one_line = (refl, (refl, (refl, (refl, (refl, (refl, (refl, (refl, (refl, (refl, tt))))))))));
  short = omega arith;
}

log-IsSetting : IsSetting (codes "LOG", [])
unfolding space_before space_behind
log-IsSetting = record {
  first = b'L';
  rest = codes "OG";
  named = refl;
  no_comment = refl;
  name_trimmed = record { left = refl; right = refl };
  no_equals = (refl, (refl, (refl, tt)));
  trimmed = record { left = refl; right = refl };
  one_line = (refl, (refl, (refl, (refl, tt))));
  short = omega arith;
}

two_settings-Distinct : Distinct two_settings
unfolding lookup bytes_eq
two_settings-Distinct = (refl, (refl, tt))

read_values-render_example :
    read_values [] (scan_lines (lines (map render two_settings))) false ≡ ok two_settings
read_values-render_example =
    read_values-render two_settings (domain-IsSetting, (log-IsSetting, tt)) two_settings-Distinct

abbrev pub quiet : Os
quiet = record {
  docker = λ tick args. ok [];
  read_config = λ tick path. err cannot_open;
  write_file = λ tick. none;
  make_directory = λ tick. none;
  listen = λ tick. ok (codes "40001");
  join = λ a b. a ++ b'/' ∷ b;
  encode_keys = λ keys. codes "{}";
}

abbrev pub own : Stack
own = record {
  api_url = [];
  api_probe_url = [];
  consumer_url = [];
  database_url = [];
  brokers = [];
  project = codes "ingestkit-demo-1";
  directory = codes "/tmp/demo";
  root = codes "/src";
  token = codes "t";
  identity = codes "ingestkit-demo-1";
  env = [];
  owned = true;
  profile = [];
  ca_path = [];
  expose_dependencies = false;
}

abbrev pub fresh : World
fresh = record { tick = 0; trace = [] }

perform-Guarded_example :
    Guarded quiet own (command_of stopping) fresh (perform quiet own stopping fresh)
perform-Guarded_example = perform-Guarded quiet own stopping fresh

-- A secret of 64 hexadecimal digits.
abbrev secret : Bytes
secret = codes "00112233445566778899aabbccddeeff00112233445566778899aabbccddeeff"

abbrev one_key : List JsonToken
one_key = open_brace ∷ text secret ∷ text (codes "default") ∷ close_brace ∷ []

abbrev settings_file : EnvFile
settings_file = record {
  is_private = true;
  text = lines (
      (codes "DOMAIN=localhost")
      ∷ (codes "API_KEYS={}")
      ∷ (codes "POSTGRES_ADMIN_PASSWORD=" ++ secret)
      ∷ (codes "POSTGRES_WRITER_PASSWORD=" ++ secret)
      ∷ []);
  breaks = false;
}

abbrev deployed : DeploymentConfig
deployed = record {
  domain = codes "localhost";
  api_keys = (secret, codes "default") ∷ [];
  admin_password = secret;
  writer_password = secret;
}

deployed_read :
    read_deployment_config token_decoder (λ _. one_key) (some settings_file) ≡ ok deployed
unfolding read_deployment_config read_values assign trim_space trim_left trim_right cut has_prefix
    strip_prefix contains split lookup insert bytes_eq config_of_values parsed_keys parse_api_keys
    read_pairs read_pair read_key read_text read_tenant decoded_tenant read_brace
    valid_deployment_domain is_label label_tail is_secret scan_lines lines valid_tenant valid_text
    utf8_valid contains_nul
deployed_read = refl

read_deployment_config-new_app_example :
    (is_secret deployed.admin_password ≡ true)
    × (is_secret deployed.writer_password ≡ true)
    × All (λ p. is_secret p.0 ≡ true) deployed.api_keys
    × (app : App) × (new_app
          (record {
            api_keys = deployed.api_keys;
            rate_limit_rps = pos 1000;
            publish_timeout = pos 5;
          })
          true
        ≡ ok app)
read_deployment_config-new_app_example =
    read_deployment_config-new_app token_decoder (λ _. one_key) (some settings_file) deployed 1000 5
      deployed_read (omega arith) (omega arith)

abbrev one_machine : Machine
one_machine = record {
  uuid = λ tick. codes "0123456789";
  abs = λ tick path. ok path;
  configure = λ tick. ok [];
  read_file = λ tick path. ok [];
  client = λ tick. none;
  healthy = λ tick. true;
  late = λ tick. false;
  done = λ tick. none;
  query_escape = λ s. s;
  encode_manifest = λ keys. codes "{}";
}

abbrev demo_options : Options
demo_options = record {
  purpose = codes "demo";
  output_directory = [];
  profile = [];
  expose_dependencies = false;
}

start-Tried_example :
    (Refused (some (codes "/src")) demo_options
      × ((f : Failure) × (start quiet one_machine 5 (some (codes "/src")) demo_options fresh
            ≡ (err (plain f), fresh))))
    ⊎ ((directory : Bytes) × ((some (codes "/src") ≡ some directory)
          × Tried quiet one_machine 5 directory demo_options 3 fresh
              (start quiet one_machine 5 (some (codes "/src")) demo_options fresh)))
start-Tried_example = start-Tried quiet one_machine 5 (some (codes "/src")) demo_options fresh
