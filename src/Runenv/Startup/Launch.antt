-- ===== src/Runenv/Startup/Launch.antt =====
-- internal/runenv/compose.go and deployment.go: how a prepared project is brought up, and taken down
-- again where that fails.
use ingestkit.Prelude.{
  ℕ, zero, suc, not, ◌&&◌, Option, none, some, [], ◌∷◌, ◌++◌, Bytes, bytes_eq, codes, Result, ok,
  err, if◌then◌else◌,
}
use ingestkit.Prelude.Strings.{trim_space}
use ingestkit.Runenv.Shell.{
  Failure, unsupported_profile, probes_need_selfhost, outside_checkout, unhealthy, out_of_fuel,
  World, Os, system_error, M, ◌>>=◌, ◌>>◌, pure, fail, ask, or_fail, guard,
}
use ingestkit.Runenv.Stack.{Stack, is_selfhost, compose, destroy, write_file, collect_evidence}
use ingestkit.Runenv.Startup.{
  Options, Machine, StartError, api_address, error_of, manifest_of, copy_certificate, is_profile,
  retried, plain, failed_start,
}
use ingestkit.Runenv.Startup.Preparation.{prepare}

module _ (os : Os) (m : Machine) where
  abbrev pub port_of : Stack → Bytes → Bytes → M Bytes
  port_of s service port = do
    out ← compose os s (codes "port" ∷ service ∷ port ∷ [])
    pure (trim_space out)

  -- A development project is brought up, its ports are asked in some order, and its addresses kept.
  unfoldable pub start_development : Stack → M Stack
  start_development s = do
    out ← compose os s (
        codes "up"
        ∷ codes "-d"
        ∷ codes "--build"
        ∷ codes "--wait"
        ∷ codes "--wait-timeout"
        ∷ codes "90"
        ∷ [])
    api ← port_of s (codes "api") (codes "8080")
    consumer ← port_of s (codes "consumer") (codes "8081")
    postgres ← port_of s (codes "postgres") (codes "5432")
    let started = record s {
      api_url = api_address api;
      consumer_url = api_address consumer;
      database_url =
          codes "postgres://ingestkit:local-test-only@"
          ++ (postgres ++ codes "/ingestkit_test?sslmode=disable");
    }
    write_file os (os.join s.directory (codes "stack.json"))
        (m.encode_manifest (manifest_of started))
    pure started

  -- The loop of `startDeployment`: `healthy` tells whether the request was answered with 200.
  unfoldable pub await_gateway : ℕ → Stack → M (Unit {0})
  await_gateway zero s w = fail out_of_fuel w
  await_gateway (suc fuel) s w =
      let next = await_gateway fuel s in
      let again = (do
        late ← ask m.late
        guard (not late) unhealthy
        done ← ask m.done
        or_fail (system_error done)
        next) in
      let (copied, w1) = compose os s (copy_certificate s) w in
      elim copied [
        | err f ↦ again w1
        | ok out ↦
            (do
              client ← ask m.client
              or_fail (system_error client)
              healthy ← ask m.healthy
              if healthy then pure tt else again)
              w1
      ]

  -- `startDeployment`
  unfoldable pub start_deployment : ℕ → Stack → M Stack
  unfolding await_gateway
  start_deployment fuel s = do
    out ← compose os s (
        codes "up"
        ∷ codes "-d"
        ∷ codes "--build"
        ∷ codes "--wait"
        ∷ codes "--wait-timeout"
        ∷ codes "100"
        ∷ [])
    await_gateway fuel s
    pure s

  -- What an attempt does where it has failed with docker in play: it collects evidence, and destroys
  -- the project.
  unfoldable pub cleanup : Stack → Failure → World → StartError × World
  cleanup s cause w =
      let (evidence, w1) = collect_evidence os s s.directory w in
      let (destroyed, w2) = destroy os s w1 in
      (failed_start s.directory cause (error_of evidence) (error_of destroyed), w2)

  abbrev pub bring_up : ℕ → Stack → M Stack
  bring_up fuel s = if is_selfhost s then start_deployment fuel s else start_development s

  abbrev pub conclude : Stack → Result Failure Stack × World → Result StartError Stack × World
  conclude s (ok started, w) = (ok started, w)
  conclude s (err f, w) = let (e, w1) = cleanup s f w in (err e, w1)

  abbrev pub go_on : ℕ → Result Failure Stack × World → Result StartError Stack × World
  go_on fuel (err f, w) = (err (plain f), w)
  go_on fuel (ok s, w) = conclude s (bring_up fuel s w)

  -- `startAttempt`
  unfoldable pub start_attempt : ℕ → Bytes → Options → World → Result StartError Stack × World
  start_attempt fuel root o w = go_on fuel (prepare os m root o w)

  -- The loop of `Start`, by the attempts that are left; `last` is the error of the one before.
  unfoldable pub tries :
      ℕ → ℕ → Bytes → Options → StartError → World → Result StartError Stack × World
  tries fuel zero root o last w = (err last, w)
  tries fuel (suc left) root o last w =
      retried (tries fuel left root o) (start_attempt fuel root o w)

  -- `Start`
  unfoldable pub start : ℕ → Option Bytes → Options → World → Result StartError Stack × World
  start fuel root o w =
      if not (is_profile o.profile)
      then (err (plain unsupported_profile), w)
      else if o.expose_dependencies && not (bytes_eq o.profile (codes "selfhost"))
      then (err (plain probes_need_selfhost), w)
      else elim root [
        | none ↦ (err (plain outside_checkout), w)
        | some directory ↦ tries fuel 3 directory o (plain outside_checkout) w
      ]
