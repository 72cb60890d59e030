-- ===== src/Examples/Commands.antt =====
-- The commands and the metrics on concrete answers: a failed measurement, the key of a deployment.
use ingestkit.Prelude.{
  ℕ, ◌↔◌, ◌≤◌, Bool, List, Result, length, ◌≡◌, ◌≢◌, ◌++◌, refl, true, false, none, some, [], ◌∷◌,
  codes, pos, ok, bytes_eq, All, arith,
}
use ingestkit.Prelude.Assoc.{lookup, Distinct}
use ingestkit.Event.{valid_tenant, valid_text, utf8_valid, contains_nul}
use ingestkit.Api.Auth.{new_api_key_config, add_key, bearer, authenticated, api_key_auth}
use ingestkit.Api.RateLimit.{new_rate_limiter}
use ingestkit.Api.App.{Config, App, new_app}
use ingestkit.Commands.Bench.{Answers, reported, run_plan}
use ingestkit.Commands.Bench.Completed.{WentWell, run_plan_iff}
use ingestkit.Runenv.DeploymentConfig.{DeploymentConfig}
use ingestkit.Runenv.Access.{api_key}
use ingestkit.Runenv.Access.Authenticated.{api_key-authenticated}
use ingestkit.Persistence.{Statement, WriteResult, write_batch}
use ingestkit.Examples.Pipeline.{event_of}
use ingestkit.Telemetry.Metrics.Bounded.{Observation, http, write, retry, all_calls}
use ingestkit.Telemetry.Registry.{names, distinct_names}
use ingestkit.Telemetry.Registry.Registered.{IsAccepted, FromStore, all_calls-IsAccepted}

-- A pipeline whose measurement fails, and whose project cannot be destroyed.
abbrev failed_measurement : Answers
failed_measurement = record {
  start = none;
  pool = none;
  capture = none;
  dirty = false;
  manifest = none;
  client = none;
  measure = some (reported 1);
  report = none;
  resources = none;
  collect = none;
  teardown = some (reported 2);
  status = none;
}

run_plan_iff_example :
    ((run_plan failed_measurement true).0 ≡ []) ↔ WentWell failed_measurement true
run_plan_iff_example = run_plan_iff failed_measurement true

abbrev two_keys : DeploymentConfig
two_keys = record {
  domain = codes "localhost";
  api_keys = (codes "k1", codes "acme") ∷ (codes "k2", codes "default") ∷ [];
  admin_password = codes "a";
  writer_password = codes "w";
}

abbrev service_config : Config
service_config = record {
  api_keys = two_keys.api_keys;
  rate_limit_rps = pos 10;
  publish_timeout = pos 5;
}

abbrev service : App
service = record {
  keys =
      add_key (add_key new_api_key_config (codes "k1") (codes "acme")) (codes "k2")
        (codes "default");
  limiter = new_rate_limiter 10;
}

service_made : new_app service_config true ≡ ok service
unfolding new_app valid_tenant valid_text utf8_valid contains_nul
service_made = refl

two_keys_distinct : Distinct two_keys.api_keys
unfolding lookup bytes_eq
two_keys_distinct = (refl, (refl, tt))

key_there : api_key true (ok two_keys) ≢ []
unfolding api_key bytes_eq
key_there e = absurd (ground arith)

api_key-authenticated_example :
    api_key_auth service.keys (bearer ++ api_key true (ok two_keys))
    ≡ authenticated (codes "default")
api_key-authenticated_example =
    api_key-authenticated two_keys service_config true service two_keys_distinct refl service_made
      key_there

-- A driver that finds every row there.
abbrev nothing_new : Statement → Result Bool ℕ
nothing_new s = ok 0

nothing_new-bound : (s : Statement) (n : ℕ) → nothing_new s ≡ ok n → n ≤ length s.values
nothing_new-bound s n e = ground arith

abbrev one_duplicate : WriteResult
one_duplicate = record { inserted = 0; duplicates = pos 1 }

stored_before : write_batch (λ n. n ∷ []) nothing_new (event_of 7 ∷ []) ≡ ok one_duplicate
unfolding write_batch
stored_before = refl

duplicate-FromStore : FromStore one_duplicate
duplicate-FromStore = record {
  uuid_string = λ n. n ∷ [];
  exec = nothing_new;
  events = event_of 7 ∷ [];
  in_bounds = nothing_new-bound;
  written = stored_before;
}

abbrev some_observations : List Observation
some_observations =
    http (codes "single") (codes "202") (pos 3)
    ∷ write one_duplicate (2 ∷ []) (pos 4) 9
    ∷ retry
    ∷ []

all_calls-IsAccepted_example :
    All IsAccepted (all_calls some_observations) × (distinct_names names ≡ true)
all_calls-IsAccepted_example =
    all_calls-IsAccepted some_observations (tt, (duplicate-FromStore, (tt, tt)))
