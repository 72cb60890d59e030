-- ===== src/Runenv/Stack.antt =====
-- internal/runenv/compose.go: a Compose project that a run owns, and the operations on it.
pub mod Verified
pub mod Ownership
use ingestkit.Prelude.{
  ℕ, Bool, true, false, not, ◌&&◌, ◌||◌, Option, none, some, is_some, List, [], ◌∷◌, ◌++◌, Bytes,
  bytes_eq, codes, ◌==◌, length, Result, ok, err, if◌then◌else◌,
}
use ingestkit.Prelude.Strings.{trim_space, fields, has_prefix}
use ingestkit.Runenv.DeploymentConfig.{DeploymentConfig}
use ingestkit.Runenv.Shell.{
  Failure, identity_mismatch, unowned, refused, container_mismatch, volume_mismatch,
  unsupported_service, bad_config, Effect, ran, wrote, made_directory, World, Os, M, ◌>>=◌, ◌>>◌,
  pure, fail, emit, ask, or_fail, guard, docker_error, system_error,
}

pub record Stack : Type 0 where
  pub api_url : Bytes
  pub api_probe_url : Bytes
  pub consumer_url : Bytes
  pub database_url : Bytes
  pub brokers : Bytes
  pub project : Bytes
  pub directory : Bytes
  pub root : Bytes
  pub token : Bytes
  pub identity : Bytes
  pub env : List Bytes
  pub owned : Bool
  pub profile : Bytes
  pub ca_path : Bytes
  pub expose_dependencies : Bool

abbrev pub is_selfhost : Stack → Bool
is_selfhost s = bytes_eq s.profile (codes "selfhost")

-- The services that can be stopped and started.
unfoldable pub is_service : Bytes → Bool
is_service name =
    bytes_eq name (codes "api")
    || bytes_eq name (codes "consumer")
    || bytes_eq name (codes "postgres")
    || bytes_eq name (codes "redpanda")

abbrev pub inspect_container : Bytes → List Bytes
inspect_container id =
    codes "inspect"
    ∷ codes "--format"
    ∷ codes "{{index .Config.Labels \"io.ingestkit.run\"}}"
    ∷ id
    ∷ []

abbrev pub inspect_volume : Bytes → List Bytes
inspect_volume name =
    codes "volume"
    ∷ codes "inspect"
    ∷ codes "--format"
    ∷ codes "{{index .Labels \"io.ingestkit.run\"}}"
    ∷ name
    ∷ []

abbrev pub list_volumes : Stack → List Bytes
list_volumes s =
    codes "volume"
    ∷ codes "ls"
    ∷ codes "--filter"
    ∷ (codes "label=com.docker.compose.project=" ++ s.project)
    ∷ codes "--format"
    ∷ codes "{{.Name}}"
    ∷ []

-- Go walks this map in any order.
abbrev evidence : List (Bytes × List Bytes)
evidence =
    (codes "containers.txt", codes "ps" ∷ codes "-a" ∷ [])
    ∷ (codes "services.log", codes "logs" ∷ codes "--no-color" ∷ codes "--tail" ∷ codes "100" ∷ [])
    ∷ (codes "images.txt", codes "images" ∷ [])
    ∷ []

module _ (os : Os) where
  unfoldable pub compose_args : Stack → List Bytes → List Bytes
  compose_args s args =
      let path = os.join s.root in
      let development =
        codes "compose"
        ∷ codes "--project-directory"
        ∷ s.root
        ∷ codes "-p"
        ∷ s.project
        ∷ codes "-f"
        ∷ path (codes "docker-compose.yml")
        ∷ [] in
      let selfhost =
        codes "compose"
        ∷ codes "--project-directory"
        ∷ path (codes "deploy")
        ∷ codes "-p"
        ∷ s.project
        ∷ codes "-f"
        ∷ path (codes "deploy/compose.yml")
        ∷ codes "-f"
        ∷ path (codes "tests/fixtures/deployment/local.yml")
        ∷ [] in
      let probes =
        if s.expose_dependencies
        then codes "-f" ∷ path (codes "tests/fixtures/deployment/probes.yml") ∷ []
        else [] in
      let settings =
        if length s.directory == 0
        then []
        else codes "--env-file" ∷ os.join s.directory (codes "run.env") ∷ [] in
      (if is_selfhost s then selfhost ++ probes else development) ++ (settings ++ args)

  -- The variables of a deployment, read anew for each command.
  unfoldable pub config_vars : DeploymentConfig → List Bytes
  config_vars c =
      (codes "DOMAIN=" ++ c.domain)
      ∷ (codes "API_KEYS=" ++ os.encode_keys c.api_keys)
      ∷ (codes "POSTGRES_ADMIN_PASSWORD=" ++ c.admin_password)
      ∷ (codes "POSTGRES_WRITER_PASSWORD=" ++ c.writer_password)
      ∷ []

  abbrev config_error : Stack → Bool → (ℕ → Result Failure (List Bytes))
  config_error s false tick = ok s.env
  config_error s true tick = elim (os.read_config tick (os.join s.directory (codes "run.env"))) [
    | ok c ↦ ok (s.env ++ config_vars c)
    | err e ↦ err (bad_config e)
  ]

  unfoldable pub docker : Stack → List Bytes → M Bytes
  docker s args = do
    found ← ask (config_error s (is_selfhost s))
    vars ← or_fail found
    answer ← ask (λ tick. os.docker tick args)
    emit (ran vars args answer)
    or_fail (docker_error answer)

  unfoldable pub compose : Stack → List Bytes → M Bytes
  compose s args = do
    guard (s.owned && bytes_eq s.project s.identity) identity_mismatch
    docker s (compose_args s args)

  -- The loops of `verifyOwner`: the label of each container or volume is the token of the run.
  unfoldable pub check_labels : Stack → (Bytes → List Bytes) → Failure → List Bytes → M (Unit {0})
  check_labels s inspect mismatch [] = pure tt
  check_labels s inspect mismatch (name ∷ names) = do
    out ← docker s (inspect name)
    guard (bytes_eq (trim_space out) s.token) mismatch
    check_labels s inspect mismatch names

  abbrev pub list_containers : Stack → List Bytes
  list_containers s = compose_args s (codes "ps" ∷ codes "-a" ∷ codes "-q" ∷ [])

  unfoldable pub verify_owner : Stack → M (Unit {0})
  verify_owner s = do
    guard (s.owned && not (length s.token == 0) && has_prefix s.project (codes "ingestkit-"))
        refused
    ids ← compose s (codes "ps" ∷ codes "-a" ∷ codes "-q" ∷ [])
    check_labels s inspect_container container_mismatch (fields ids)
    volumes ← docker s (list_volumes s)
    check_labels s inspect_volume volume_mismatch (fields volumes)

  -- The operations that change the project: the command follows on a verified ownership.
  unfoldable pub owned_command : Stack → List Bytes → M (Unit {0})
  owned_command s args = do verify_owner s; out ← compose s args; pure tt

  unfoldable pub stop : Stack → M (Unit {0})
  stop s = owned_command s (codes "stop" ∷ [])

  unfoldable pub destroy : Stack → M (Unit {0})
  destroy s = owned_command s (codes "down" ∷ codes "-v" ∷ codes "--remove-orphans" ∷ [])

  unfoldable pub kill_consumer : Stack → M (Unit {0})
  kill_consumer s =
      owned_command s (codes "kill" ∷ codes "-s" ∷ codes "KILL" ∷ codes "consumer" ∷ [])

  unfoldable pub set_service_running : Stack → Bytes → Bool → M (Unit {0})
  set_service_running s name running = do
    guard (is_service name) unsupported_service
    owned_command s ((if running then codes "start" else codes "stop") ∷ name ∷ [])

  unfoldable pub write_file : Bytes → Bytes → M (Unit {0})
  write_file path content = do
    answer ← ask os.write_file
    emit (wrote path content (not (is_some answer)))
    or_fail (system_error answer)

  unfoldable pub make_directory : Bytes → M (Unit {0})
  make_directory path = do
    answer ← ask os.make_directory
    emit (made_directory path (not (is_some answer)))
    or_fail (system_error answer)

  -- The loop over the files of evidence.
  unfoldable pub collect : Stack → Bytes → List (Bytes × List Bytes) → M (Unit {0})
  unfolding write_file
  collect s directory [] = pure tt
  collect s directory ((name, args) ∷ rest) = do
    out ← compose s args
    write_file (os.join directory name) out
    collect s directory rest

  unfoldable pub collect_evidence : Stack → Bytes → M (Unit {0})
  unfolding make_directory
  collect_evidence s directory = do
    guard s.owned unowned
    make_directory directory
    collect s directory evidence
