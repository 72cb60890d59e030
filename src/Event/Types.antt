-- ===== src/Event/Types.antt =====
-- internal/event/event.go: the constants and the types, and the parts of Go's `time.Time`,
-- `uuid.UUID` and encoding/json that the package uses.
use ingestkit.Prelude.{ℕ, ◌+◌, ◌*◌, Bool, Option, List, [], ◌∷◌, Bytes, ◌==◌}

abbrev pub max_event_bytes : ℕ
max_event_bytes = 256 * 1024

abbrev pub max_envelope_bytes : ℕ
max_envelope_bytes = max_event_bytes + 4096

abbrev pub max_request_bytes : ℕ
max_request_bytes = 1024 * 1024

abbrev pub max_batch_events : ℕ
max_batch_events = 100

-- An instant in nanoseconds from the first that RFC 3339 can write, a day before the year 0, and
-- the zone in which it is shown.
pub record Time : Type 0 where
  pub instant : ℕ
  pub zone : Bytes

-- The zero `time.Time` is January 1 of the year 1, 367 days from that origin.
abbrev pub zero_instant : ℕ
zero_instant = 367 * 86_400 * 1_000_000_000

unfoldable pub is_zero : Time → Bool
is_zero t = t.instant == zero_instant

unfoldable pub utc : Time → Time
utc t = record t { zone = b'U' ∷ b'T' ∷ b'C' ∷ [] }

-- An event identifier is the number that the sixteen bytes of its UUID make.
pub record Input : Type 0 where
  pub event_id : ℕ
  pub event_type : Bytes
  pub occurred_at : Time
  pub payload : Bytes

pub record Envelope : Type 0 where
  pub input : Input
  pub open input use *
  pub tenant_id : Bytes
  pub received_at : Time

-- The messages of the package's errors.
pub data Message : Type 0 where
  bad_event_id bad_event_type bad_occurred_at bad_payload bad_jsonb : Message
  over_limit bad_unicode bad_json many_documents bad_batch_size envelope_over_limit : Message

-- A `ValidationError`, the error of `Accept` about the server's part, and that of `Encode`.
pub data Error : Type 0 where
  validation : Message → Bool → Error
  server_identity : Error
  encoding : Error

-- The tokens of a `json.Decoder`: a delimiter that opens or closes, a number, any other.
pub data Token : Type 0 where
  opening closing : Token
  number : Bytes → Token
  scalar : Token

-- encoding/json, as far as the package calls it. A decoder gives the value and the bytes behind it.
pub record Json : Type 0 where
  pub valid : Bytes → Bool
  -- The tokens of a text with `UseNumber`, and whether they end with io.EOF.
  pub tokens : Bytes → List Token × Bool
  -- `Unmarshal` into a map succeeds and leaves one that is not nil.
  pub is_object : Bytes → Bool
  -- `Decode` with `DisallowUnknownFields`, into an `Input`, an `Envelope`, or a batch of raw events.
  pub decode_input : Bytes → Option (Input × Bytes)
  pub decode_envelope : Bytes → Option (Envelope × Bytes)
  pub decode_events : Bytes → Option (List Bytes × Bytes)
  -- A further `Decode` gives io.EOF.
  pub at_end : Bytes → Bool
  -- `Encode` without HTML escapes.
  pub encode_envelope : Envelope → Option Bytes
