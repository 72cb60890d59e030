-- ===== src/Api/Middleware.antt =====
-- internal/api/app.go and internal/api/middleware: the handlers in front of the routes, which give
-- a request its identifier and observe its outcome, and the handler of Fiber's errors. The clocks,
-- the random identifier and what Fiber passes to the code are inputs.
pub mod Decimal
pub mod Observed
use ingestkit.Prelude.{
  ℕ, zero, suc, ◌+◌, ◌/◌, ◌%◌, Bool, true, false, Option, none, some, List, [], ◌∷◌, ◌++◌, Bytes,
  bytes_eq, codes, ℤ, pos, ltb, length, ◌==◌, if◌then◌else◌,
}
use ingestkit.Api.App.{Body, no_body, failure, accepted, Code, request_failed, Response, reply}
use ingestkit.Telemetry.Metrics.{Call, observe_http}

-- strconv.Itoa; a number has at most as many digits as the fuel, which is above it.
unfoldable pub itoa_from : ℕ → ℕ → Bytes
itoa_from zero n = []
itoa_from (suc fuel) n = elim (ltb n 10) [
  | true ↦ (b'0' + n) ∷ []
  | false ↦ itoa_from fuel (n / 10) ++ (b'0' + n % 10) ∷ []
]

unfoldable pub itoa : ℕ → Bytes
unfolding itoa_from
itoa n = itoa_from (suc n) n

-- What the code keeps of a request in progress: its locals, the response with the header
-- X-Request-ID and the identifier in its body, and the calls of the metrics library.
pub record Context : Type 0 where
  pub local_id : Option Bytes
  pub metrics_observed : Bool
  pub response : Response
  pub header_id : Option Bytes
  pub body_id : Option Bytes
  pub calls : List Call

abbrev pub new_context : Context
new_context = record {
  local_id = none;
  metrics_observed = false;
  response = reply 200 no_body;
  header_id = none;
  body_id = none;
  calls = [];
}

-- How a handler ends; the code of an error is there if it is an error of Fiber.
pub data HandlerEnding : Type 0 where
  finished : HandlerEnding
  returned panicked : Option ℕ → HandlerEnding

abbrev pub Handler : Type 0
Handler = Context → HandlerEnding × Context

-- The bodies in which the handlers write the identifier of the request.
abbrev pub id_in : Body → Option Bytes → Option Bytes
id_in (failure code) id = id
id_in (accepted events) id = id
id_in _ id = none

abbrev pub write : Response → Context → Context
write a c = record c { response = a; body_id = id_in a.body c.local_id }

-- What the handlers behind the middleware do: they answer, return an error or panic.
pub data Behaviour : Type 0 where
  answers : Response → Behaviour
  fails panics : Option ℕ → Behaviour

unfoldable pub behave : Behaviour → Handler
behave (answers a) c = (finished, write a c)
behave (fails e) c = (returned e, c)
behave (panics e) c = (panicked e, c)

unfoldable pub generate_request_id : ℕ → Bytes
unfolding itoa
generate_request_id now = codes "req_" ++ itoa now

-- `RequestID`, with the request's header X-Request-ID.
unfoldable pub request_id : Bytes → ℕ → Handler → Handler
request_id header now next c =
    let id = if length header == 0 then generate_request_id now else header in
    next (record c { local_id = some id; header_id = some id })

abbrev pub error_status : Option ℕ → ℕ
error_status none = 500
error_status (some code) = code

-- The label of a path in the metrics.
unfoldable pub label : Bytes → Bytes
label path =
    if bytes_eq path (codes "/v1/events")
    then codes "single"
    else if bytes_eq path (codes "/v1/events/batch")
    then codes "batch"
    else if bytes_eq path (codes "/ready")
    then codes "ready"
    else if bytes_eq path (codes "/health")
    then codes "health"
    else if bytes_eq path (codes "/metrics")
    then codes "metrics"
    else codes "other"

abbrev pub observe_as : Bytes → ℕ → ℤ → Context → Context
observe_as route status d c = record c { calls = c.calls ++ observe_http route (itoa status) d }

-- What the second handler does behind the others; a panic passes it by.
unfoldable pub observed : Bytes → ℤ → HandlerEnding × Context → HandlerEnding × Context
observed path d (finished, c) =
    (finished, observe_as (label path) c.response.status d (record c { metrics_observed = true }))
observed path d (returned e, c) =
    (returned e, observe_as (label path) (error_status e) d (record c { metrics_observed = true }))
observed path d (panicked e, c) = (panicked e, c)

unfoldable pub observe_requests : Bytes → ℤ → Handler → Handler
observe_requests path d next c = observed path d (next c)

-- `ensureRequestID`, with the identifier that `uuid` would make.
unfoldable pub ensure_request_id : Bytes → Context → Context
ensure_request_id uuid c = elim c.local_id [
  | none ↦ record c { local_id = some uuid; header_id = some uuid }
  | some id ↦ record c { header_id = some id }
]

-- The `ErrorHandler` of the application.
unfoldable pub handle_error : Bytes → Option ℕ → Context → Context
unfolding ensure_request_id
handle_error uuid e c =
    let c' = ensure_request_id uuid c in
    let seen =
      if c'.metrics_observed then c' else observe_as (codes "other") (error_status e) (pos 0) c' in
    write (record c'.response { status = error_status e; body = failure request_failed }) seen

-- A request as Fiber passes it on: to the handlers, or to the error handler alone, where its
-- server refuses it before them.
pub data Incoming : Type 0 where
  reached : (path header : Bytes) (now : ℕ) (elapsed : ℤ) → Behaviour → Incoming
  refused : Option ℕ → Incoming

-- The middleware `recover` of Fiber is the parameter `recovered`; a panic that it lets through ends
-- the request without a response.
module _ (recovered : HandlerEnding → HandlerEnding) (uuid : Bytes) where
  unfoldable pub recovering : Handler → Handler
  recovering next c = let (ending, c') = next c in (recovered ending, c')

  unfoldable pub responded : HandlerEnding × Context → Option Context
  responded (finished, c) = some c
  responded (returned e, c) = some (handle_error uuid e c)
  responded (panicked e, c) = none

  unfoldable pub handle : Incoming → Option Context
  unfolding recovering responded
  handle (reached path header now d b) =
      responded
        (request_id header now (recovering (observe_requests path d (behave b))) new_context)
  handle (refused e) = some (handle_error uuid e new_context)
