-- ===== src/Messaging/Topics.antt =====
-- internal/messaging/publisher.go and reader.go: whether the topics of a client are ready, from the
-- metadata that the broker answers.
use ingestkit.Prelude.{
  ◌≡◌, refl, ◌↔◌, ◌≤ℤ◌, Bool, true, false, ◌&&◌, Option, some, List, [], ◌∷◌, Bytes, ℤ, pos, leb_ℤ,
  All, arith,
}

pub record PartitionMetadata : Type 0 where
  pub error_code : ℤ
  pub leader : ℤ

pub record TopicMetadata : Type 0 where
  pub error_code : ℤ
  pub partitions : List PartitionMetadata

abbrev is_zero : ℤ → Bool
is_zero n = leb_ℤ (pos 0) n && leb_ℤ n (pos 0)

-- The loop over the partitions.
unfoldable pub all_led : List PartitionMetadata → Bool
all_led [] = true
all_led (p ∷ ps) = (is_zero p.error_code && leb_ℤ (pos 0) p.leader) && all_led ps

-- `topicReady` on the topics of the answer, `none` where the request fails; true for no error.
unfoldable pub topic_ready : Option (List TopicMetadata) → Bool
unfolding all_led
topic_ready (some (t ∷ [])) =
    is_zero t.error_code && (elim t.partitions [ [] ↦ false | p ∷ ps ↦ all_led (p ∷ ps) ])
topic_ready _ = false

-- `Reader.Ping`: its own topic, and that of the publisher of its quarantine.
unfoldable pub ping : (Bytes → Option (List TopicMetadata)) → Bytes → Bytes → Bool
unfolding topic_ready
ping metadata topic dlq_topic = topic_ready (metadata topic) && topic_ready (metadata dlq_topic)

-- A partition that is without an error and has a leader.
pub record IsLed (p : PartitionMetadata) : Type 0 where
  pub no_error : p.error_code ≡ pos 0
  pub led : pos 0 ≤ℤ p.leader

-- The loop accepts exactly partitions that all have a leader and no error.
all_led_iff : (ps : List PartitionMetadata) → (all_led ps ≡ true) ↔ All IsLed ps
unfolding all_led
all_led_iff [] = (λ h. tt, λ h. refl)
all_led_iff (p ∷ ps) =
    let rest = all_led_iff ps in
    (
      λ h. (
        record { no_error = ground (arith, h); led = ground (arith, h) },
        rest.0 (ground (arith, h)),
      ),
      λ h. ground (arith, h.0.no_error, h.0.led, rest.1 h.1),
    )
