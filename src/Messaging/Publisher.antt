-- ===== src/Messaging/Publisher.antt =====
-- internal/messaging/publisher.go: the configuration of a publisher, the records of a batch of
-- envelopes, and the wait for the broker's answers.
pub mod Answers
pub mod Config
use ingestkit.Prelude.{
  ℕ, zero, suc, ◌+◌, ◌≡◌, Bool, true, false, Option, none, some, List, [], ◌∷◌, ◌++◌, Bytes, map,
  Result, ok, err, ◌>>=◌, length,
}
use ingestkit.Event.{Envelope, Json, Error, encode_envelope}
use ingestkit.Messaging.Records.{KafkaRecord}

-- The errors with which a produced record comes back.
pub data ProduceError : Type 0 where
  max_buffered deadline_exceeded canceled record_timeout other : ProduceError

pub data PublishError : Type 0 where
  saturated unavailable : PublishError

-- The labels of the failure metric.
pub data Reason : Type 0 where
  buffer_saturated timeout broker_error : Reason

-- The broker client: the answer to the record at each place of a batch, the places in the order
-- in which the answers to a batch of `n` arrive, and how many arrive before the publish timeout.
pub record Broker : Type 0 where
  pub answer : ℕ → Option ProduceError
  pub order : ℕ → List ℕ
  pub patience : ℕ

unfoldable pub fault : ProduceError → PublishError × Reason
fault max_buffered = (saturated, buffer_saturated)
fault deadline_exceeded = (unavailable, timeout)
fault canceled = (unavailable, timeout)
fault record_timeout = (unavailable, timeout)
fault other = (unavailable, broker_error)

-- The receiving loop of `send`: the first error ends it, and so does the timeout.
unfoldable pub receive : ℕ → List (Option ProduceError) → Option (PublishError × Reason)
unfolding fault
receive patience [] = none
receive zero (_ ∷ _) = some (unavailable, timeout)
receive (suc patience) (none ∷ answers) = receive patience answers
receive (suc patience) (some e ∷ answers) = some (fault e)

-- What `send` reports to the metrics.
pub data Observation : Type 0 where
  publish_failure : Reason → Observation
  publish : Bool → Observation

unfoldable pub observations : Option (PublishError × Reason) → List Observation
observations none = publish true ∷ []
observations (some (e, reason)) = publish_failure reason ∷ publish false ∷ []

-- The records are all produced before an answer is read.
unfoldable pub send : Broker → List KafkaRecord → Option (PublishError × Reason)
unfolding receive
send b records = receive b.patience (map b.answer (b.order (length records)))

-- `Publish` fails before anything is sent if an envelope cannot be encoded.
pub data Outcome : Type 0 where
  published : List KafkaRecord → Outcome
  not_encoded : Error → Outcome
  not_sent : List KafkaRecord → PublishError × Reason → Outcome

module _ (j : Json) (uuid_string : ℕ → Bytes) (topic : Bytes) where
  unfoldable pub record_of : Envelope → Bytes → KafkaRecord
  record_of e raw = record {
    topic = topic;
    partition = 0;
    offset = 0;
    key = e.tenant_id ++ b':' ∷ uuid_string e.event_id;
    headers = [];
    value = raw;
  }

  unfoldable pub records_of : List Envelope → Result Error (List KafkaRecord)
  records_of [] = ok []
  records_of (e ∷ es) = do
    raw ← encode_envelope j e
    rest ← records_of es
    ok (record_of e raw ∷ rest)

  sent : List KafkaRecord → Option (PublishError × Reason) → Outcome
  sent records none = published records
  sent records (some f) = not_sent records f

  unfoldable pub publish_events : Broker → List Envelope → Outcome
  unfolding sent
  publish_events b events = elim (records_of events) [
    | ok records ↦ sent records (send b records)
    | err e ↦ not_encoded e
  ]
