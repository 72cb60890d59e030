-- ===== src/Examples/Serving.antt =====
-- The service on concrete requests: authentication, limits, ingestion, storage, health, diagnostics.
use ingestkit.Prelude.{
  ℕ, ◌≡◌, ◌≤◌, ◌+◌, refl, ◌↔◌, ◌⊎◌, ◌≢◌, inl, Bool, true, false, Option, none, some, List, [], ◌∷◌,
  ◌++◌, Bytes, pos, ◌+ℤ◌, ◌-ℤ◌, length, map, Result, ok, ◌==◌, codes, arith, bytes_eq, strip_prefix,
  sym, ◌∙◌,
}
use ingestkit.Prelude.Assoc.{lookup, insert}
use ingestkit.Event.{
  Time, zero_instant, is_zero, Input, Envelope, Json, opening, closing, validate, valid_text,
  utf8_valid, contains_nul, valid_jsonb, valid_unicode_json, valid_tenant, decode, decode_input,
  accept,
}
use ingestkit.Event.Laws.{IsTenant}
use ingestkit.Api.Auth.{
  ApiKeyConfig, new_api_key_config, add_key, bearer, extract_key, validate_key, authenticated,
  invalid_key, api_key_auth, api_key_auth_iff,
}
use ingestkit.Api.RateLimit.{
  nano, new_rate_limiter, new_rate_limiter_with_ttl, allow, bucket_for, refill, take_token,
}
use ingestkit.Api.App.{
  Config, App, new_app, Request, single, decode_body, stamp, publish_all, ingest, bucket_tenant,
  rate_limited, protected, serve, send_error, authentication_failed,
}
use ingestkit.Api.App.Ingestion.{stamped, Ingested, serve-202, serve-unauthenticated}
use ingestkit.Api.App.Delivery.{ingest-handed}
use ingestkit.Persistence.{Statement, received_at, rows_from, write_batch}
use ingestkit.Persistence.Binding.{assigned, cell, rows_from-binds}
use ingestkit.Service.Health.{
  new_processing_health, observe_all, ready, last_failing, ready-observe_all,
}
use ingestkit.Service.Diagnostics.{storage, Cause, Report, new_diagnostics}
use ingestkit.Service.Diagnostics.Accounting.{told_all, failures, report_all, report_all-accounts}

abbrev click : Input
click = record {
  event_id = 7;
  event_type = codes "click";
  occurred_at = record { instant = 1; zone = codes "UTC" };
  payload = codes "{}";
}

abbrev one_document : Json
one_document = record {
  valid = λ _. true;
  tokens = λ _. (opening ∷ closing ∷ [], true);
  is_object = λ _. true;
  decode_input = λ _. some (click, []);
  decode_envelope = λ _. none;
  decode_events = λ _. none;
  at_end = λ rest. length rest == 0;
  encode_envelope = λ _. some (codes "{}");
}

abbrev noon : Time
noon = record { instant = 2; zone = codes "CET" }

abbrev two_keys : ApiKeyConfig
two_keys = record { keys = (codes "k1", codes "acme") ∷ (codes "k2", codes "umbrella") ∷ [] }

api_key_auth_iff_example :
    (api_key_auth two_keys (codes "Bearer k2") ≡ authenticated (codes "umbrella")) ↔ (
      (codes "Bearer k2" ≢ [])
      × (((key : Bytes) × (codes "Bearer k2" ≡ bearer ++ key)
            × (lookup key two_keys.keys ≡ some (codes "umbrella")))
          ⊎ (((key : Bytes) → codes "Bearer k2" ≢ bearer ++ key)
              × (lookup (codes "Bearer k2") two_keys.keys ≡ some (codes "umbrella")))))
api_key_auth_iff_example = api_key_auth_iff two_keys (codes "Bearer k2") (codes "umbrella")

abbrev running : App
running = record { keys = two_keys; limiter = new_rate_limiter_with_ttl 2 nano }

abbrev one_request : Request
one_request = record {
  authorization = codes "Bearer k1";
  body = codes "{}";
  now = 5;
  received = noon;
}

one_request_accepted :
    (serve one_document (λ _. true) true running single one_request).0.status ≡ 202
unfolding serve api_key_auth lookup bytes_eq strip_prefix rate_limited allow take_token refill
    bucket_for new_rate_limiter_with_ttl ingest decode_body bucket_tenant protected publish_all
    stamp extract_key validate_key accept valid_tenant insert ◌-ℤ◌ decode_input decode
    valid_unicode_json utf8_valid validate valid_text contains_nul is_zero valid_jsonb ◌+ℤ◌
one_request_accepted = refl

serve-202_example :
    Ingested one_document
      (λ _. true)
      running
      false
      one_request
      (serve one_document (λ _. true) true running single one_request).0
serve-202_example =
    serve-202 one_document (λ _. true) true running one_request false one_request_accepted

abbrev stranger : Request
stranger = record one_request { authorization = codes "Bearer k3" }

stranger_invalid : api_key_auth two_keys stranger.authorization ≡ invalid_key
unfolding api_key_auth lookup bytes_eq strip_prefix extract_key validate_key
stranger_invalid = refl

not_known : (tenant : Bytes) → invalid_key ≢ authenticated tenant
not_known tenant e = absurd (ground arith)

stranger_unknown :
    (tenant : Bytes) → api_key_auth two_keys stranger.authorization ≢ authenticated tenant
stranger_unknown tenant e = not_known tenant (sym stranger_invalid ∙ e)

serve-unauthenticated_example :
    serve one_document (λ _. true) true running single stranger
    ≡ (send_error 401 authentication_failed, running)
serve-unauthenticated_example =
    serve-unauthenticated one_document (λ _. true) true running stranger single (inl refl)
      stranger_unknown

acme_IsTenant : IsTenant (codes "acme")
unfolding utf8_valid contains_nul
acme_IsTenant = record { present = omega arith; short = omega arith; utf8 = refl; no_nul = refl }

noon_set : noon.instant ≢ zero_instant
noon_set e = absurd (omega arith)

one_decoded : decode_body one_document false (codes "{}") ≡ ok (click ∷ [])
unfolding decode_body decode_input decode valid_unicode_json utf8_valid validate valid_text
    contains_nul is_zero valid_jsonb ◌+ℤ◌
one_decoded = refl

ingest-handed_example :
    ((ingest one_document (λ _. false) false (some (codes "acme")) noon (codes "{}")).handed
      ≡ some (stamped (codes "acme") noon click ∷ []))
    × ((ingest one_document (λ _. false) false (some (codes "acme")) noon (codes "{}")).status
        ≡ 503)
ingest-handed_example =
    ingest-handed one_document (λ _. false) false (codes "acme") noon (codes "{}") (click ∷ [])
      acme_IsTenant noon_set one_decoded

abbrev one_key : Config
one_key = record {
  api_keys = (codes "k1", codes "acme") ∷ [];
  rate_limit_rps = pos 10;
  publish_timeout = pos 5;
}

abbrev started : App
started = record {
  keys = add_key new_api_key_config (codes "k1") (codes "acme");
  limiter = new_rate_limiter 10;
}

app_started : new_app one_key true ≡ ok started
unfolding new_app valid_tenant valid_text utf8_valid contains_nul
app_started = refl

acme_key : lookup (codes "k1") started.keys.keys ≡ some (codes "acme")
unfolding add_key new_api_key_config lookup insert bytes_eq
acme_key = refl

abbrev two_envelopes : List Envelope
two_envelopes = stamped (codes "acme") noon click ∷ stamped (codes "umbrella") noon click ∷ []

rows_from-binds_example :
    map
      (assigned (rows_from (λ n. n ∷ []) 0 two_envelopes) received_at)
      (rows_from (λ n. n ∷ []) 0 two_envelopes).values
    ≡ map (λ e. some (cell (λ n. n ∷ []) e received_at)) two_envelopes
rows_from-binds_example = rows_from-binds (λ n. n ∷ []) two_envelopes received_at

-- A driver that has inserted the first row and found the second.
abbrev one_inserted : Statement → Result Bool ℕ
one_inserted s = elim s.values [ [] ↦ ok 0 | _ ∷ _ ↦ ok 1 ]

one_inserted_bound : (s : Statement) (n : ℕ) → one_inserted s ≡ ok n → n ≤ length s.values
one_inserted_bound s n e = ground arith

two_written :
    write_batch (λ n. n ∷ []) one_inserted two_envelopes
    ≡ ok (record { inserted = 1; duplicates = pos 1 })
unfolding write_batch
two_written = refl

abbrev outcomes : List (Bytes × Bool)
outcomes = (codes "storage", true) ∷ (codes "progress", true) ∷ (codes "storage", false) ∷ []

ready-observe_all_example :
    (ready (observe_all new_processing_health outcomes) ≡ true)
    ↔ ((operation : Bytes) → last_failing operation false outcomes ≡ false)
ready-observe_all_example = ready-observe_all outcomes

abbrev timed_out : Cause
timed_out = record { is_deadline = true; is_canceled = false; sql_code = none; is_network = false }

abbrev report_at : ℕ → Option Cause → Report
report_at now cause = record {
  kind = storage;
  topic = codes "events";
  partition = 0;
  offset = 4;
  cause = cause;
  now = now;
}

abbrev three_reports : List Report
three_reports = report_at 1 (some timed_out) ∷ report_at 2 (some timed_out) ∷ report_at 3 none ∷ []

report_all-accounts_example :
    told_all storage (new_diagnostics (pos 10)) three_reports
      + ((report_all (new_diagnostics (pos 10)) three_reports).state storage).suppressed
    ≡ failures storage three_reports + ((new_diagnostics (pos 10)).state storage).suppressed
report_all-accounts_example = report_all-accounts storage (new_diagnostics (pos 10)) three_reports
