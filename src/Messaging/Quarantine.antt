-- ===== src/Messaging/Quarantine.antt =====
-- internal/messaging/quarantine.go: the records that a reader cannot process are sent to a topic of
-- their own, with what is needed to find and repeat them.
pub mod Delivery
use ingestkit.Prelude.{
  ℕ, Bool, true, false, Option, none, some, List, [], ◌∷◌, Bytes, codes, take, length, ltb,
  if◌then◌else◌,
}
use ingestkit.Messaging.Records.{KafkaRecord}
use ingestkit.Messaging.Publisher.{Broker, PublishError, Reason, send}
use ingestkit.Telemetry.Metrics.{Call, observe_quarantine}

-- The times are in nanoseconds.
pub record QuarantinedRecord : Type 0 where
  pub topic : Bytes
  pub partition : ℕ
  pub offset : ℕ
  pub key : Bytes
  pub headers : List (Bytes × Bytes)
  pub value : Bytes
  pub error : Bytes
  pub failed_at : ℕ

pub data WriteError : Type 0 where
  not_encoded : WriteError
  not_sent : PublishError × Reason → WriteError

-- The error that `Write` returns, the records that it has given to the broker, and what it reports.
pub record Written : Type 0 where
  pub error : Option WriteError
  pub sent : List KafkaRecord
  pub calls : List Call

-- The text of a cause, cut to 1024 bytes.
unfoldable pub message : Bytes → Bytes
message cause = if ltb 1024 (length cause) then take 1024 cause else cause

unfoldable pub quarantined : KafkaRecord → Bytes → ℕ → QuarantinedRecord
unfolding message
quarantined r cause now = record {
  topic = r.topic;
  partition = r.partition;
  offset = r.offset;
  key = r.key;
  headers = r.headers;
  value = r.value;
  error = message cause;
  failed_at = now;
}

-- The record that carries a quarantined one.
abbrev pub carrier : Bytes → Bytes → Bytes → KafkaRecord
carrier topic key raw = record {
  topic = topic;
  partition = 0;
  offset = 0;
  key = key;
  headers = [];
  value = raw;
}

-- What the deferred function reports, by the error.
abbrev pub reported : Option WriteError → List Call
reported none = observe_quarantine (codes "success")
reported (some e) = observe_quarantine (codes "error")

abbrev pub send_error : Option (PublishError × Reason) → Option WriteError
send_error none = none
send_error (some f) = some (not_sent f)

-- `encoded` is the outcome of json.Marshal.
unfoldable pub write_encoded : Option Bytes → Bytes → Broker → Bytes → Written
write_encoded none topic b key = record {
  error = some not_encoded;
  sent = [];
  calls = reported (some not_encoded);
}
write_encoded (some raw) topic b key =
    let out = carrier topic key raw in
    let answer = send_error (send b (out ∷ [])) in
    record { error = answer; sent = out ∷ []; calls = reported answer }

module _ (marshal : QuarantinedRecord → Option Bytes) (topic : Bytes) (b : Broker) where
  unfoldable pub write : KafkaRecord → Bytes → ℕ → Written
  unfolding write_encoded
  write r cause now = write_encoded (marshal (quarantined r cause now)) topic b r.key
