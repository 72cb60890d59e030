-- ===== src/Messaging/Reader/Config.antt =====
-- `readerDefaults` and the checks of `NewReader`.
use ingestkit.Prelude.{
  ℕ, ◌*◌, ◌≤◌, ◌<◌, ◌≡◌, Bool, true, not, ◌||◌, List, Bytes, ℤ, pos, pos_part, leb_ℤ, ◌==◌, length,
  Result, ok, ◌>>◌, require, arith,
}
use ingestkit.Messaging.Process.{Limits}
use ingestkit.Messaging.Publisher.Config.{or_default}

pub record ReaderConfig : Type 0 where
  pub brokers : List Bytes
  pub topic : Bytes
  pub dlq_topic : Bytes
  pub group_id : Bytes
  pub batch_size : ℤ
  pub attempt_timeout : ℤ
  pub retry_window : ℤ
  pub backoff_min : ℤ
  pub backoff_max : ℤ

pub data ReaderError : Type 0 where
  invalid_configuration client_refused dlq_refused : ReaderError

abbrev second : ℕ
second = 1_000_000_000

unfoldable pub reader_defaults : ReaderConfig → ReaderConfig
reader_defaults c = record c {
  batch_size = or_default c.batch_size 500;
  attempt_timeout = or_default c.attempt_timeout (5 * second);
  retry_window = or_default c.retry_window (15 * second);
  backoff_min = or_default c.backoff_min 100_000_000;
  backoff_max = or_default c.backoff_max (2 * second);
}

unfoldable pub valid_config : ReaderConfig → Bool
valid_config c = not (
    (length c.brokers == 0)
    || (length c.topic == 0)
    || (length c.dlq_topic == 0)
    || (length c.group_id == 0)
    || not (leb_ℤ (pos 1) c.batch_size)
    || not (leb_ℤ c.batch_size (pos 500))
    || leb_ℤ c.attempt_timeout (pos 0)
    || leb_ℤ c.retry_window (pos 0)
    || not (leb_ℤ c.retry_window (pos (15 * second)))
    || leb_ℤ c.backoff_min (pos 0)
    || not (leb_ℤ c.backoff_min c.backoff_max))

-- The store is given; the consumer's client and the publisher of the dead-letter topic are made by
-- the broker library, which may refuse.
unfoldable pub new_reader : Bool → Bool → ReaderConfig → Result ReaderError ReaderConfig
new_reader client dlq c = do
  let d = reader_defaults c
  require (valid_config d) invalid_configuration
  require client client_refused
  require dlq dlq_refused
  ok d

-- The limits with which the loops of the reader run.
abbrev pub limits_of : ReaderConfig → Limits
limits_of c = record {
  batch_size = pos_part c.batch_size;
  retry_window = pos_part c.retry_window;
  backoff_min = pos_part c.backoff_min;
  backoff_max = pos_part c.backoff_max;
}

new_reader_parts :
    (client dlq : Bool) (c d : ReaderConfig)
    → new_reader client dlq c ≡ ok d
    → (d ≡ reader_defaults c) × (valid_config d ≡ true)
unfolding new_reader
new_reader_parts client dlq c d h = ground arith

-- A reader that is made runs with batches of 1 to 500 records, a window of at most 15 seconds, and
-- a backoff of at least a nanosecond that starts no higher than its maximum.
pub new_reader_limits :
    (client dlq : Bool) (c d : ReaderConfig)
    → new_reader client dlq c ≡ ok d
    → (0 < (limits_of d).batch_size)
      × ((limits_of d).batch_size ≤ 500)
      × ((limits_of d).retry_window ≤ 15 * second)
      × (1 ≤ (limits_of d).backoff_min)
      × ((limits_of d).backoff_min ≤ (limits_of d).backoff_max)
unfolding valid_config
new_reader_limits client dlq c d h = ground (arith, new_reader_parts client dlq c d)
