-- ===== src/Examples/Settings.antt =====
-- The configuration of two API keys, read from a list of tokens.
use ingestkit.Prelude.{
  ◌≡◌, ◌<◌, refl, ◌↔◌, Bool, true, false, Option, none, some, List, [], ◌∷◌, Bytes, length, ok,
  codes, arith, bytes_eq, pos, All,
}
use ingestkit.Prelude.Assoc.{Assoc, Distinct, lookup, insert}
use ingestkit.Prelude.Strings.{split}
use ingestkit.Config.ApiKeys.{
  JsonToken, JsonValue, string_value, null_value, open_brace, close_brace, other, text, Decoder,
  parse_api_keys, read_pairs, read_pair, read_key, read_text, read_tenant, decoded_tenant,
  read_brace,
}
use ingestkit.Config.Runtime.{ApiEnv, parsed, rate_limit, value, brokers, load_api_env}
use ingestkit.Config.Runtime.Starting.{config_of, HasText, load_api_env-new_app}
use ingestkit.Api.App.{App, new_app}
use ingestkit.Config.ApiKeys.Reading.{Pairs, Consuming, parse_api_keys_iff}

abbrev next_token : List JsonToken → Option (JsonToken × List JsonToken)
next_token [] = none
next_token (t ∷ ts) = some (t, ts)

-- Where the decoder of a value finds `other`, it is null.
abbrev next_value : List JsonToken → Option (JsonValue × List JsonToken)
next_value (text v ∷ ts) = some (string_value v, ts)
next_value (other ∷ ts) = some (null_value, ts)
next_value _ = none

abbrev has_more : List JsonToken → Bool
has_more [] = false
has_more (close_brace ∷ ts) = false
has_more _ = true

abbrev pub token_decoder : Decoder (List JsonToken)
token_decoder = record {
  token = next_token;
  more = has_more;
  decode = next_value;
  at_end = λ ts. elim ts [ [] ↦ true | _ ∷ _ ↦ false ];
  left = λ ts. length ts;
}

next_token-lt :
    (s s1 : List JsonToken) (t : JsonToken) → next_token s ≡ some (t, s1) → length s1 < length s
next_token-lt [] s1 t e = absurd (ground arith)
next_token-lt (x ∷ s) s1 t e = ground arith

next_value-lt :
    (s s1 : List JsonToken) (v : JsonValue) → next_value s ≡ some (v, s1) → length s1 < length s
next_value-lt [] s1 v e = absurd (ground arith)
next_value-lt (text w ∷ s) s1 v e = ground arith
next_value-lt (open_brace ∷ s) s1 v e = absurd (ground arith)
next_value-lt (close_brace ∷ s) s1 v e = absurd (ground arith)
next_value-lt (other ∷ s) s1 v e = ground arith

tokens_Consuming : Consuming token_decoder
tokens_Consuming = record { token = next_token-lt; decode = next_value-lt }

abbrev two_pairs : List JsonToken
two_pairs =
    open_brace
    ∷ text (codes "k1")
    ∷ text (codes "acme")
    ∷ text (codes "k2")
    ∷ text (codes "umbrella")
    ∷ close_brace
    ∷ []

abbrev two_tenants : Assoc Bytes
two_tenants = (codes "k1", codes "acme") ∷ (codes "k2", codes "umbrella") ∷ []

-- The second key has null in place of a tenant.
abbrev pairs_with_null : List JsonToken
pairs_with_null =
    open_brace
    ∷ text (codes "k1")
    ∷ text (codes "acme")
    ∷ text (codes "k2")
    ∷ other
    ∷ close_brace
    ∷ []

abbrev one_unnamed : Assoc Bytes
one_unnamed = (codes "k1", codes "acme") ∷ (codes "k2", []) ∷ []

parse_api_keys_iff_example : (parse_api_keys token_decoder pairs_with_null ≡ ok one_unnamed) ↔ (
    (opened : List JsonToken) × (last : List JsonToken) × (closed : List JsonToken)
    × (token_decoder.token pairs_with_null ≡ some (open_brace, opened))
    × Pairs token_decoder opened one_unnamed last
    × Distinct one_unnamed
    × (token_decoder.token last ≡ some (close_brace, closed))
    × (token_decoder.at_end closed ≡ true))
parse_api_keys_iff_example =
    parse_api_keys_iff token_decoder pairs_with_null one_unnamed tokens_Consuming

-- No variable is set but that of the keys.
abbrev default_env : ApiEnv
default_env = record {
  listen_address = codes ":8080";
  brokers = codes "localhost:19092" ∷ [];
  event_topic = codes "ingestkit.events";
  api_keys = two_tenants;
  rate_limit_rps = pos 1000;
  publish_timeout = pos 5_000_000_000;
}

env_loaded : load_api_env token_decoder (λ _. two_pairs) (λ _. []) ≡ ok default_env
unfolding load_api_env parse_api_keys read_pairs read_pair read_key read_text read_tenant
    decoded_tenant read_brace lookup insert bytes_eq parsed rate_limit value brokers split
env_loaded = refl

load_api_env-new_app_example :
    ((app : App) × (new_app (config_of default_env) true ≡ ok app)) ↔ All HasText two_tenants
load_api_env-new_app_example =
    load_api_env-new_app token_decoder (λ _. two_pairs) (λ _. []) default_env env_loaded
