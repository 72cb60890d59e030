-- ===== src/Runenv/Shell.antt =====
-- What internal/runenv asks of the system: docker commands and files. The answers come from an
-- environment that may depend on the moment, and every call is kept on a trace.
use ingestkit.Prelude.{
  ℕ, suc, Bool, true, false, Option, none, some, List, ◌∷◌, Bytes, ltb, ◌-◌, drop, length, Result,
  ok, err, if◌then◌else◌,
}
use ingestkit.Prelude.Assoc.{Assoc}
use ingestkit.Prelude.Action.{Action}
unfoldable pub use ingestkit.Prelude.Action.{◌>>=◌, pure, fail}
pub use ingestkit.Prelude.Action.{◌>>◌}
use ingestkit.Runenv.DeploymentConfig.{DeploymentConfig, DeploymentError}

-- The errors; `out_of_fuel` belongs to the model only, `docker_failed` has the end of the output, `system_failed` the text of the error.
pub data Failure : Type 0 where
  unsupported_profile probes_need_selfhost outside_checkout : Failure
  identity_mismatch unowned refused : Failure
  container_mismatch volume_mismatch unsupported_service : Failure
  docker_failed : Bytes → Failure
  bad_config : DeploymentError → Failure
  system_failed : Bytes → Failure
  unhealthy : Failure
  out_of_fuel : Failure
  send_failed reconciliation_failed : Failure

-- A docker command by the variables that are added to its environment, its arguments and its
-- output (`err` where it fails), and a file or a directory that was made, or was not.
pub data Effect : Type 0 where
  ran : List Bytes → List Bytes → Result Bytes Bytes → Effect
  wrote : Bytes → Bytes → Bool → Effect
  made_directory : Bytes → Bool → Effect

-- `tick` counts the questions asked; the trace has the newest effect first.
pub record World : Type 0 where
  pub tick : ℕ
  pub trace : List Effect

-- The answers at each tick. An error of the system is a text. `join` is filepath.Join, and
-- `encode_keys` is json.Marshal on a map of texts.
pub record Os : Type 0 where
  pub docker : ℕ → List Bytes → Result Bytes Bytes
  pub read_config : ℕ → Bytes → Result DeploymentError DeploymentConfig
  pub write_file : ℕ → Option Bytes
  pub make_directory : ℕ → Option Bytes
  pub listen : ℕ → Result Bytes Bytes
  pub join : Bytes → Bytes → Bytes
  pub encode_keys : Assoc Bytes → Bytes

abbrev pub M : Type 0 → Type 0
M A = Action World Failure A

unfoldable pub emit : Effect → M (Unit {0})
emit e w = (ok tt, record w { trace = e ∷ w.trace })

unfoldable pub ask : {A : Type 0} → (ℕ → A) → M A
ask f w = (ok (f w.tick), record w { tick = suc w.tick })

unfoldable pub or_fail : {A : Type 0} → Result Failure A → M A
or_fail (ok a) = pure a
or_fail (err f) = fail f

unfoldable pub guard : Bool → Failure → M (Unit {0})
guard true f = pure tt
guard false f = fail f

-- The last 5000 bytes of an output.
unfoldable pub tail : Bytes → Bytes
tail out = if ltb 5000 (length out) then drop (length out - 5000) out else out

abbrev pub docker_error : {A : Type 0} → Result Bytes A → Result Failure A
docker_error (ok out) = ok out
docker_error (err out) = err (docker_failed (tail out))

abbrev pub system_error : Option Bytes → Result Failure (Unit {0})
system_error none = ok tt
system_error (some e) = err (system_failed e)
