-- ===== src/Messaging/Publisher/Config.antt =====
-- `NewPublisher`: the defaults of a configuration and its checks. Go's integers and durations may
-- be negative; the broker client is a parameter that may refuse.
use ingestkit.Prelude.{
  ℕ, ◌*◌, ◌≤◌, ◌≡◌, ◌↔◌, Bool, true, not, ◌&&◌, ◌||◌, List, Bytes, ℤ, pos, negsuc, leb_ℤ, ◌≤ℤ◌,
  ◌==◌, length, Result, ok, ◌>>◌, require, arith, if◌then◌else◌,
}

pub record PublisherConfig : Type 0 where
  pub brokers : List Bytes
  pub topic : Bytes
  pub max_buffered_bytes : ℤ
  pub max_buffered_records : ℤ
  pub publish_timeout : ℤ

pub data ConfigError : Type 0 where
  no_brokers_or_topic bad_limits client_refused : ConfigError

-- A field that is 0 takes its default.
abbrev pub or_default : ℤ → ℕ → ℤ
or_default (pos n) d = if n == 0 then pos d else pos n
or_default (negsuc n) d = negsuc n

unfoldable pub with_defaults : PublisherConfig → PublisherConfig
with_defaults c = record c {
  max_buffered_bytes = or_default c.max_buffered_bytes (64 * 1_048_576);
  max_buffered_records = or_default c.max_buffered_records 1000;
  publish_timeout = or_default c.publish_timeout 5_000_000_000;
}

abbrev ms : ℕ
ms = 1_000_000

unfoldable pub new_publisher :
    (PublisherConfig → Bool) → PublisherConfig → Result ConfigError PublisherConfig
unfolding with_defaults
new_publisher connect c = do
  require (not ((length c.brokers == 0) || (length c.topic == 0))) no_brokers_or_topic
  let d = with_defaults c
  require
      (leb_ℤ (pos 1) d.max_buffered_bytes
        && leb_ℤ (pos 1) d.max_buffered_records
        && leb_ℤ (pos ms) d.publish_timeout)
      bad_limits
  require (connect d) client_refused
  ok d

-- A publisher is made exactly if the client accepts the completed configuration, which names
-- brokers and a topic and whose limits are positive, the timeout a millisecond at least.
pub new_publisher_iff :
    (connect : PublisherConfig → Bool) (c d : PublisherConfig)
    → (new_publisher connect c ≡ ok d) ↔ (
        (d ≡ with_defaults c)
        × (connect d ≡ true)
        × (1 ≤ length c.brokers)
        × (1 ≤ length c.topic)
        × (pos 1 ≤ℤ d.max_buffered_bytes)
        × (pos 1 ≤ℤ d.max_buffered_records)
        × (pos ms ≤ℤ d.publish_timeout))
unfolding new_publisher
new_publisher_iff connect c d = (λ h. ground arith, λ h. ground arith)
