-- ===== src/Runenv/Access.antt =====
-- internal/runenv/deployment.go: the key and the client with which a run talks to its own project.
-- The files that it reads, and whether a text holds certificates, are inputs.
pub mod Authenticated
use ingestkit.Prelude.{
  ℕ, Bool, true, false, Option, none, some, List, [], ◌∷◌, Bytes, bytes_eq, codes, Result, ok, err,
  if◌then◌else◌,
}
use ingestkit.Prelude.Assoc.{Assoc}
use ingestkit.Runenv.DeploymentConfig.{DeploymentConfig, DeploymentError}

-- The loop over the keys of a deployment, in the order in which the map is walked.
unfoldable pub default_key : Assoc Bytes → Bytes
default_key [] = []
default_key ((key, tenant) ∷ rest) =
    if bytes_eq tenant (codes "default") then key else default_key rest

-- `APIKey`, with what `ReadDeploymentConfig` gives for the file of the run.
unfoldable pub api_key : (is_selfhost : Bool) → Result DeploymentError DeploymentConfig → Bytes
unfolding default_key
api_key false config = codes "local-demo-key"
api_key true (err e) = []
api_key true (ok config) = default_key config.api_keys

-- A client of net/http: the time for a request in seconds, and the roots that it trusts instead of
-- those of the system, with TLS 1.2 or above.
pub record Client : Type 0 where
  pub timeout : ℕ
  pub roots : Option Bytes

pub data ClientError : Type 0 where
  no_certificate_file no_certificate : ClientError

-- `HTTPClient`.
unfoldable pub http_client :
    (is_selfhost : Bool)
    → (file : Option Bytes) → (has_certificates : Bytes → Bool) → Result ClientError Client
http_client false file has_certificates = ok (record { timeout = 8; roots = none })
http_client true none has_certificates = err no_certificate_file
http_client true (some raw) has_certificates =
    if has_certificates raw
    then ok (record { timeout = 8; roots = some raw })
    else err no_certificate
