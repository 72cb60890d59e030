-- ===== src/Api/Middleware/Observed.antt =====
-- Every request that the service answers is observed once, under the status of its response.
use ingestkit.Prelude.{ℕ, ◌≡◌, Option, some, Bytes, codes, ℤ, pos, length, ◌==◌, if◌then◌else◌}
use ingestkit.Api.App.{failure, Code}
use ingestkit.Telemetry.Metrics.{observe_http}
use ingestkit.Api.Middleware.{
  itoa, Context, HandlerEnding, finished, returned, panicked, answers, fails, panics,
  generate_request_id, error_status, label, Incoming, reached, refused,
}

-- What the documentation of `recover` says: a panic becomes an error, and nothing else changes.
pub record Recovers (recovered : HandlerEnding → HandlerEnding) : Type 0 where
  pub quiet : recovered finished ≡ finished
  pub kept : (e : Option ℕ) → recovered (returned e) ≡ returned e
  pub caught : (e : Option ℕ) → recovered (panicked e) ≡ returned e

-- The identifier that a response carries.
abbrev pub answered_id : Bytes → Incoming → Bytes
answered_id uuid (reached path header now d b) =
    if length header == 0 then generate_request_id now else header
answered_id uuid (refused e) = uuid

abbrev pub answered_status : Incoming → ℕ
answered_status (reached path header now d (answers a)) = a.status
answered_status (reached path header now d (fails e)) = error_status e
answered_status (reached path header now d (panics e)) = error_status e
answered_status (refused e) = error_status e

-- The label and the duration under which a request is observed.
abbrev pub observed_as : Incoming → Bytes × ℤ
observed_as (reached path header now d (answers a)) = (label path, d)
observed_as (reached path header now d (fails e)) = (label path, d)
observed_as (reached path header now d (panics e)) = (codes "other", pos 0)
observed_as (refused e) = (codes "other", pos 0)

pub record Answered (uuid : Bytes) (i : Incoming) (c : Context) : Type 0 where
  pub status : c.response.status ≡ answered_status i
  pub once : c.calls ≡ observe_http (observed_as i).0 (itoa c.response.status) (observed_as i).1
  pub header : c.header_id ≡ some (answered_id uuid i)
  pub body : (code : Code) → c.response.body ≡ failure code → c.body_id ≡ some (answered_id uuid i)

-- strconv.Itoa and the parser of digits.
