-- ===== src/Runenv/Startup/Preparation.antt =====
-- internal/runenv/compose.go and deployment.go: what an attempt to start a project does before any
-- docker command.
use ingestkit.Prelude.{
  ℕ, zero, suc, Bool, true, false, List, [], ◌∷◌, ◌++◌, Bytes, bytes_eq, codes, ◌==◌, length,
  Result, ok, err, if◌then◌else◌,
}
use ingestkit.Prelude.Strings.{lines}
use ingestkit.Runenv.DeploymentConfig.{DeploymentConfig, DeploymentError}
use ingestkit.Runenv.Shell.{Failure, bad_config, Os, M, ◌>>=◌, ◌>>◌, pure, ask, or_fail}
use ingestkit.Runenv.Stack.{Stack, write_file, make_directory}
use ingestkit.Runenv.Startup.{
  Options, Machine, project_name, answered, port_at, local_url, development_env, deployment_env,
}

module _ (os : Os) (m : Machine) where
  -- Sockets on ports that are free, for as long as all are open.
  unfoldable pub reserve : ℕ → M (List Bytes)
  reserve zero = pure []
  reserve (suc n) = do
    answer ← ask os.listen
    port ← or_fail (answered answer)
    ports ← reserve n
    pure (port ∷ ports)

  unfoldable pub read_file : Bytes → M Bytes
  read_file path = do answer ← ask (λ tick. m.read_file tick path); or_fail (answered answer)

  -- The project, its token and its directory.
  unfoldable pub new_stack : Bytes → Options → M Stack
  new_stack root o = do
    id ← ask m.uuid
    token ← ask m.uuid
    let project = project_name o.purpose id
    let runs = os.join (os.join root (codes "tmp")) (codes "runs")
    let directory =
        if length o.output_directory == 0 then os.join runs project else o.output_directory
    answer ← ask (λ tick. m.abs tick directory)
    path ← or_fail (answered answer)
    make_directory os path
    pure (record {
      api_url = [];
      api_probe_url = [];
      consumer_url = [];
      database_url = [];
      brokers = [];
      project = project;
      directory = path;
      root = root;
      token = token;
      identity = project;
      env = [];
      owned = true;
      profile = [];
      ca_path = [];
      expose_dependencies = false;
    })

  -- The environment of a development project, written to its directory.
  unfoldable pub prepare_development : Stack → M Stack
  unfolding reserve
  prepare_development s = do
    ports ← reserve 4
    let env = development_env s.token ports
    write_file os (os.join s.directory (codes "run.env")) (lines env)
    pure (record s { env = env; brokers = codes "127.0.0.1:" ++ port_at 0 ports })

  -- The addresses of a deployment whose dependencies are exposed.
  unfoldable pub exposed : Stack → List Bytes → DeploymentConfig → Stack
  exposed s ports c = record s {
    api_probe_url = local_url (port_at 5 ports);
    database_url =
        codes "postgres://ingestkit_admin:"
        ++ (m.query_escape c.admin_password
            ++ (codes "@127.0.0.1:" ++ (port_at 2 ports ++ codes "/ingestkit?sslmode=disable")));
    consumer_url = local_url (port_at 3 ports);
    brokers = codes "127.0.0.1:" ++ port_at 4 ports;
  }

  abbrev config_of : Result DeploymentError DeploymentConfig → Result Failure DeploymentConfig
  config_of (ok c) = ok c
  config_of (err e) = err (bad_config e)

  unfoldable pub expose : Stack → List Bytes → Bool → M Stack
  unfolding exposed
  expose s ports false = pure s
  expose s ports true = do
    answer ← ask (λ tick. os.read_config tick (os.join s.directory (codes "run.env")))
    c ← or_fail (config_of answer)
    pure (exposed s ports c)

  -- `prepareDeployment`
  unfoldable pub prepare_deployment : Stack → Options → M Stack
  unfolding reserve read_file expose
  prepare_deployment s o = do
    configured ← ask m.configure
    out ← or_fail (answered configured)
    cfg ← read_file (os.join s.directory (codes ".env"))
    ports ← reserve 6
    let env = deployment_env s.root s.token ports
    write_file os (os.join s.directory (codes "run.env")) (cfg ++ lines env)
    let deployment = record s {
      profile = codes "selfhost";
      expose_dependencies = o.expose_dependencies;
      env = env;
      api_url = codes "https://localhost:" ++ port_at 1 ports;
      ca_path = os.join s.directory (codes "root.crt");
    }
    expose deployment ports o.expose_dependencies

  -- Everything of an attempt that docker does not see.
  unfoldable pub prepare : Bytes → Options → M Stack
  unfolding new_stack prepare_development prepare_deployment
  prepare root o = do
    s ← new_stack root o
    if bytes_eq o.profile (codes "selfhost") then prepare_deployment s o else prepare_development s
