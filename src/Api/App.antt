-- ===== src/Api/App.antt =====
-- internal/api/app.go and internal/api/ingest.go: the configuration of the service, its routes, and
-- the handler that validates, stamps and publishes events. Fiber's choice of the route is an input,
-- and so are the clock, the answer of `Publish` and that of `Ping`.
pub mod Ingestion
pub mod Delivery
use ingestkit.Prelude.{
  ℕ, ◌≡◌, Bool, true, false, not, ◌&&◌, ◌||◌, Option, none, some, List, [], ◌∷◌, Bytes, codes, ℤ,
  pos, pos_part, leb_ℤ, map, length, ◌==◌, Result, ok, err, ◌>>=◌, ◌>>◌, require, if◌then◌else◌,
}
use ingestkit.Prelude.Assoc.{Assoc}
use ingestkit.Event.{
  Json, Input, Envelope, Time, Error, is_too_large, valid_tenant, accept, decode_input,
  decode_batch,
}
use ingestkit.Api.Auth.{
  ApiKeyConfig, new_api_key_config, add_key, AuthResult, missing_header, invalid_key, authenticated,
  api_key_auth,
}
use ingestkit.Api.RateLimit.{RateLimiter, new_rate_limiter, allow}

pub record Config : Type 0 where
  pub api_keys : Assoc Bytes
  pub rate_limit_rps : ℤ
  pub publish_timeout : ℤ

-- What `NewApp` builds: the keys and the limiter.
pub record App : Type 0 where
  pub keys : ApiKeyConfig
  pub limiter : RateLimiter

pub data ConfigError : Type 0 where
  invalid_configuration invalid_mapping : ConfigError

-- The loop over the configured keys.
unfoldable pub add_keys : Assoc Bytes → ApiKeyConfig → Result ConfigError ApiKeyConfig
add_keys [] keys = ok keys
add_keys ((key, tenant) ∷ rest) keys = do
  require (not ((length key == 0) || not (valid_tenant tenant))) invalid_mapping
  add_keys rest (add_key keys key tenant)

unfoldable pub new_app : Config → Bool → Result ConfigError App
unfolding add_keys
new_app c has_publisher = do
  require
      (not (
        (length c.api_keys == 0)
        || leb_ℤ c.rate_limit_rps (pos 0)
        || leb_ℤ c.publish_timeout (pos 0)
        || not has_publisher))
      invalid_configuration
  keys ← add_keys c.api_keys new_api_key_config
  ok (record { keys = keys; limiter = new_rate_limiter (pos_part c.rate_limit_rps) })

-- The error codes of internal/api/middleware/errors.go and of the handlers.
pub data Code : Type 0 where
  validation_failed authentication_failed rate_limit_exceeded internal_error unavailable : Code
  request_failed : Code

pub data Body : Type 0 where
  no_body alive ready metrics_text : Body
  failure : Code → Body
  accepted : List ℕ → Body

-- A response, with the limit and the remaining requests where a limiter has set the headers, and
-- the envelopes that were handed to the publisher.
pub record Response : Type 0 where
  pub status : ℕ
  pub body : Body
  pub rate : Option (ℕ × ℕ)
  pub handed : Option (List Envelope)

abbrev pub reply : ℕ → Body → Response
reply status body = record { status = status; body = body; rate = none; handed = none }

abbrev pub send_error : ℕ → Code → Response
send_error status code = reply status (failure code)

module _ (j : Json) where
  unfoldable pub decode_body : Bool → Bytes → Result Error (List Input)
  decode_body true raw = decode_batch j raw
  decode_body false raw = do in' ← decode_input j raw; ok (in' ∷ [])

  -- The loop that stamps the events; the first that `Accept` refuses ends it.
  unfoldable pub stamp : Bytes → Time → List Input → Result Error (List Envelope)
  stamp tenant received [] = ok []
  stamp tenant received (in' ∷ rest) = do
    e ← accept j in' tenant received
    es ← stamp tenant received rest
    ok (e ∷ es)

  module _ (publish : List Envelope → Bool) where
    unfoldable pub publish_all : List Envelope → Response
    publish_all events =
        if publish events
        then record (reply 202 (accepted (map (λ e. e.event_id) events))) { handed = some events }
        else record (send_error 503 unavailable) { handed = some events }

    -- `ingest`; the tenant is the local of the request, if there is one.
    unfoldable pub ingest : Bool → Option Bytes → Time → Bytes → Response
    unfolding publish_all
    ingest batch tenant received raw = elim (decode_body batch raw) [
      | err e ↦ send_error (if is_too_large e then 413 else 400) validation_failed
      | ok inputs ↦ elim tenant [
        | none ↦ send_error 500 internal_error
        | some t ↦ elim (stamp t received inputs) [
          | err e ↦ send_error 400 validation_failed
          | ok events ↦ publish_all events
        ]
      ]
    ]

-- A request: its header `Authorization` and its body, with the two clocks that the handlers read.
pub record Request : Type 0 where
  pub authorization : Bytes
  pub body : Bytes
  pub now : ℕ
  pub received : Time

-- The tenant whose bucket a request uses.
unfoldable pub bucket_tenant : Option Bytes → Bytes
bucket_tenant none = codes "default"
bucket_tenant (some tenant) = tenant

-- The middleware `RateLimit` in front of a handler.
unfoldable pub rate_limited : App → Option Bytes → ℕ → Response → Response × App
rate_limited app tenant now next =
    let (answer, limiter) = allow app.limiter (bucket_tenant tenant) now in
    let response = if answer.0 then next else send_error 429 rate_limit_exceeded in
    (record response { rate = some (answer.1, answer.2) }, record app { limiter = limiter })

-- The group /v1: the middleware `APIKeyAuth`, then the limiter, then the handler of the route.
unfoldable pub protected : App → Request → (Option Bytes → Response) → Response × App
protected app r handler = elim (api_key_auth app.keys r.authorization) [
  | missing_header ↦ (send_error 401 authentication_failed, app)
  | invalid_key ↦ (send_error 401 authentication_failed, app)
  | authenticated tenant ↦ rate_limited app (some tenant) r.now (handler (some tenant))
]

-- The route that Fiber finds; a path below /v1 without a handler still passes the group.
pub data Route : Type 0 where
  health_check ready_check metrics_page single batch unknown_v1 unknown : Route

module _ (j : Json) (publish : List Envelope → Bool) (ping : Bool) where
  unfoldable pub serve : App → Route → Request → Response × App
  unfolding protected
  serve app health_check r = (reply 200 alive, app)
  serve app ready_check r = ((if ping then reply 200 ready else send_error 503 unavailable), app)
  serve app metrics_page r = (reply 200 metrics_text, app)
  serve app single r = protected app r (λ t. ingest j publish false t r.received r.body)
  serve app batch r = protected app r (λ t. ingest j publish true t r.received r.body)
  serve app unknown_v1 r = protected app r (λ t. send_error 404 request_failed)
  serve app unknown r = (send_error 404 request_failed, app)
