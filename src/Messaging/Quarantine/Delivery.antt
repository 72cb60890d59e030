-- ===== src/Messaging/Quarantine/Delivery.antt =====
-- What an outcome of `Write` says of the broker, and what the record that it sends holds.
use ingestkit.Prelude.{ℕ, ◌≤◌, ◌≡◌, ◌++◌, Bytes, length}
use ingestkit.Messaging.Records.{KafkaRecord}
use ingestkit.Messaging.Quarantine.{QuarantinedRecord}

-- What is kept of a record that is set aside.
pub record Holds (r : KafkaRecord) (cause : Bytes) (now : ℕ) (q : QuarantinedRecord) : Type 0 where
  pub topic : q.topic ≡ r.topic
  pub partition : q.partition ≡ r.partition
  pub offset : q.offset ≡ r.offset
  pub key : q.key ≡ r.key
  pub headers : q.headers ≡ r.headers
  pub value : q.value ≡ r.value
  pub failed_at : q.failed_at ≡ now
  pub cut : length q.error ≤ 1024
  pub first_part : (rest : Bytes) × (cause ≡ q.error ++ rest)
  pub whole : length cause ≤ 1024 → q.error ≡ cause
