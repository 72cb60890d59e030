-- ===== src/Messaging/Records.antt =====
-- The records of the broker client, and the configuration of internal/messaging/reader.go.
use ingestkit.Prelude.{ℕ, List, Bytes}

-- kgo.Record, with the fields that the program reads or writes.
pub record KafkaRecord : Type 0 where
  pub topic : Bytes
  pub partition : ℕ
  pub offset : ℕ
  pub key : Bytes
  pub headers : List (Bytes × Bytes)
  pub value : Bytes
