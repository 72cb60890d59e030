-- ===== src/Runenv/Startup.antt =====
-- internal/runenv/compose.go and deployment.go: the options, the names and the environments with
-- which a project is started, and the errors of that.
pub mod Preparation
pub mod Launch
pub mod Quiet
pub mod Cleanup
pub mod Attempts
use ingestkit.Prelude.{
  ℕ, zero, suc, ◌+◌, Bool, true, false, not, ◌&&◌, ◌||◌, Option, none, some, is_some, List, [], ◌∷◌,
  ◌++◌, Bytes, bytes_eq, codes, ◌==◌, leb, length, take, Result, ok, err, if◌then◌else◌,
}
use ingestkit.Prelude.Assoc.{Assoc}
use ingestkit.Prelude.Strings.{trim_space, contains, lines}
use ingestkit.Runenv.DeploymentConfig.{DeploymentConfig, DeploymentError}
use ingestkit.Runenv.Shell.{
  Failure, unsupported_profile, probes_need_selfhost, outside_checkout, docker_failed, bad_config,
  system_failed, unhealthy, out_of_fuel, World, Os, system_error, M, ◌>>=◌, ◌>>◌, pure, fail, ask,
  or_fail, guard,
}
use ingestkit.Runenv.Stack.{
  Stack, is_selfhost, compose, destroy, write_file, make_directory, collect_evidence,
}

pub record Options : Type 0 where
  pub purpose : Bytes
  pub output_directory : Bytes
  pub profile : Bytes
  pub expose_dependencies : Bool

-- What is asked besides docker: `poll` is one round over the gateway, with the answer of the
-- request, whether the deadline has passed, and whether the context is done.
pub record Machine : Type 0 where
  pub uuid : ℕ → Bytes
  pub abs : ℕ → Bytes → Result Bytes Bytes
  pub configure : ℕ → Result Bytes Bytes
  pub read_file : ℕ → Bytes → Result Bytes Bytes
  pub client : ℕ → Option Bytes
  pub healthy : ℕ → Bool
  pub late : ℕ → Bool
  pub done : ℕ → Option Bytes
  pub query_escape : Bytes → Bytes
  pub encode_manifest : Assoc Bytes → Bytes

-- An error of an attempt: as it is where nothing was started, and else with the directory of the
-- evidence and the errors of collecting it and of the cleanup.
pub data StartError : Type 0 where
  plain : Failure → StartError
  failed_start :
      (directory : Bytes) (cause : Failure) (evidence cleanup : Option Failure) → StartError

abbrev pub in_name : ℕ → Bool
in_name c = (leb b'a' c && leb c b'z') || (leb b'0' c && leb c b'9') || (c == b'-')

abbrev pub lower : ℕ → ℕ
lower c = if leb b'A' c && leb c b'Z' then c + 32 else c

-- The letter of ASCII to which strings.ToLower maps a character beyond it, given by its last byte and
-- the two before it: U+0130 and U+212A.
abbrev pub lower_beyond : ℕ → ℕ → ℕ → Option ℕ
lower_beyond before last c =
    if (last == 0xc4) && (c == 0xb0)
    then some b'i'
    else if (before == 0xe2) && (last == 0x84) && (c == 0xaa)
    then some b'k'
    else none

-- strings.ToLower, and only letters, digits and hyphens are kept: behind the bytes `before` and
-- `last`.
unfoldable pub purpose_from : ℕ → ℕ → Bytes → Bytes
purpose_from before last [] = []
purpose_from before last (c ∷ s) =
    let rest = purpose_from last c s in
    if in_name (lower c)
    then lower c ∷ rest
    else elim (lower_beyond before last c) [ none ↦ rest | some l ↦ l ∷ rest ]

unfoldable pub purpose_name : Bytes → Bytes
unfolding purpose_from
purpose_name s = purpose_from 0 0 s

unfoldable pub project_name : Bytes → Bytes → Bytes
unfolding purpose_name
project_name purpose uuid =
    codes "ingestkit-" ++ (take 20 (purpose_name purpose) ++ b'-' ∷ take 8 uuid)

abbrev pub api_address : Bytes → Bytes
api_address port = codes "http://" ++ trim_space port

-- `Root` over the working directory and those above it, each with the answers for its two files.
unfoldable pub root_of : List (Bytes × Bool × Bool) → Option Bytes
root_of [] = none
root_of ((directory, go_mod, compose_file) ∷ above) =
    let rest = root_of above in if go_mod && compose_file then some directory else rest

abbrev pub in_use : Bytes
in_use = codes "address already in use"

abbrev pub failure_in_use : Failure → Bool
failure_in_use (docker_failed out) = contains out in_use
failure_in_use (system_failed text) = contains text in_use
failure_in_use _ = false

abbrev pub option_in_use : Option Failure → Bool
option_in_use none = false
option_in_use (some f) = failure_in_use f

-- Whether the text of an error says that an address is in use.
unfoldable pub error_in_use : StartError → Bool
error_in_use (plain f) = failure_in_use f
error_in_use (failed_start directory cause evidence cleanup) =
    contains directory in_use
    || failure_in_use cause
    || option_in_use evidence
    || option_in_use cleanup

abbrev pub cleanup_failed : StartError → Bool
cleanup_failed (plain f) = false
cleanup_failed (failed_start directory cause evidence cleanup) = is_some cleanup

abbrev pub error_of : {A : Type 0} → Result Failure A → Option Failure
error_of (ok a) = none
error_of (err f) = some f

-- The bytes of an answer of the system.
abbrev pub answered : {A : Type 0} → Result Bytes A → Result Failure A
answered (ok a) = ok a
answered (err e) = err (system_failed e)

abbrev pub port_at : ℕ → List Bytes → Bytes
port_at place [] = []
port_at zero (port ∷ ports) = port
port_at (suc place) (port ∷ ports) = port_at place ports

abbrev pub local_url : Bytes → Bytes
local_url port = codes "http://127.0.0.1:" ++ port

abbrev pub development_env : Bytes → List Bytes → List Bytes
development_env token ports =
    (codes "INGESTKIT_BROKER_PORT=" ++ port_at 0 ports)
    ∷ (codes "API_PORT=" ++ port_at 1 ports)
    ∷ (codes "METRICS_PORT=" ++ port_at 2 ports)
    ∷ (codes "POSTGRES_PORT=" ++ port_at 3 ports)
    ∷ codes "POSTGRES_DB=ingestkit_test"
    ∷ codes "POSTGRES_PASSWORD=local-test-only"
    ∷ codes "API_KEYS={\"local-demo-key\":\"demo\",\"local-second-key\":\"second\"}"
    ∷ (codes "INGESTKIT_RUN_ID=" ++ token)
    ∷ []

abbrev pub deployment_env : Bytes → Bytes → List Bytes → List Bytes
deployment_env root token ports =
    (codes "API_PROBE_PORT=" ++ port_at 5 ports)
    ∷ (codes "INGESTKIT_HTTP_PORT=" ++ port_at 0 ports)
    ∷ (codes "INGESTKIT_HTTPS_PORT=" ++ port_at 1 ports)
    ∷ (codes "POSTGRES_PORT=" ++ port_at 2 ports)
    ∷ (codes "METRICS_PORT=" ++ port_at 3 ports)
    ∷ (codes "INGESTKIT_BROKER_PORT=" ++ port_at 4 ports)
    ∷ (codes "INGESTKIT_REPO_ROOT=" ++ root)
    ∷ (codes "INGESTKIT_RUN_ID=" ++ token)
    ∷ codes "RATE_LIMIT_RPS=10000"
    ∷ codes "LOG_LEVEL=info"
    ∷ codes "RETENTION_MS=604800000"
    ∷ codes "CONSUMER_GROUP=ingestkit-consumer"
    ∷ []

-- What is written down of a development project, by the keys of a map.
abbrev pub manifest_of : Stack → Assoc Bytes
manifest_of s =
    (codes "project", s.project)
    ∷ (codes "api_url", s.api_url)
    ∷ (codes "consumer_url", s.consumer_url)
    ∷ (codes "broker", s.brokers)
    ∷ []

abbrev pub copy_certificate : Stack → List Bytes
copy_certificate s =
    codes "cp" ∷ codes "gateway:/data/caddy/pki/authorities/local/root.crt" ∷ s.ca_path ∷ []

abbrev pub is_profile : Bytes → Bool
is_profile p = (length p == 0) || bytes_eq p (codes "development") || bytes_eq p (codes "selfhost")

-- What follows on an attempt: the next, where an address was in use and the cleanup succeeded.
abbrev pub retried :
    (StartError → World → Result StartError Stack × World)
    → Result StartError Stack × World
    → Result StartError Stack × World
retried next (ok s, w) = (ok s, w)
retried next (err e, w) =
    let more = next e w in if not (error_in_use e) || cleanup_failed e then (err e, w) else more
