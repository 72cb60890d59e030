-- ===== src/Examples/Pipeline.antt =====
-- The pipeline with a store that fails once, on two partitions with a record that does not decode.
use mathlib.Core.List.{Memᴰ}
use ingestkit.Prelude.{
  ℕ, zero, suc, ◌≡◌, ◌<◌, refl, Bool, true, false, none, some, List, [], ◌∷◌, Bytes, pos, length,
  Result, ok, err, ◌==◌, if◌then◌else◌, codes, arith, ◌+ℤ◌,
}
use ingestkit.Event.{
  Envelope, Json, opening, closing, encode_envelope, accept, validate, valid_text, utf8_valid,
  contains_nul, valid_jsonb, valid_unicode_json, valid_tenant,
}
use ingestkit.Event.Types.{is_zero}
use ingestkit.Messaging.Records.{KafkaRecord}
use ingestkit.Messaging.World.{Effect, Env, World}
use ingestkit.Messaging.World.Triples.{Post}
use ingestkit.Messaging.Process.{Limits, persist, process_partition}
use ingestkit.Messaging.Process.Retry.{Persisted, GaveUp, persist_lem}
use ingestkit.Messaging.Process.Outcome.{Advanced, Halted}
use ingestkit.Messaging.Process.Safety.{process_partition_lem}
use ingestkit.Messaging.Reader.{Fetches, canceled, process_fetched, run}
use ingestkit.Messaging.Reader.Fetching.{
  flat, Allowed, process_fetched_lem, records, Polled, run-Polled,
}
use ingestkit.Messaging.Reader.Config.{ReaderConfig, reader_defaults, valid_config, new_reader}
use ingestkit.Messaging.Publisher.{Broker, published, record_of, records_of, send, publish_events}
use ingestkit.Messaging.Publisher.Answers.{Encoded, publish_events-published}
use ingestkit.Messaging.Publisher.Config.{PublisherConfig}

abbrev pub event_of : ℕ → Envelope
event_of n = record {
  input = record {
    event_id = n;
    event_type = codes "click";
    occurred_at = record { instant = 1; zone = codes "UTC" };
    payload = codes "{}";
  };
  tenant_id = codes "acme";
  received_at = record { instant = 2; zone = codes "UTC" };
}

-- A text of one byte or more decodes.
abbrev read_event : Bytes → Result Bool Envelope
read_event [] = err true
read_event (n ∷ _) = ok (event_of n)

abbrev record_at : ℕ → Bytes → KafkaRecord
record_at n value = record {
  topic = codes "events";
  partition = 0;
  offset = n;
  key = [];
  headers = [];
  value = value;
}

abbrev failing_once : Env
failing_once = record {
  done = λ _. false;
  writes = λ t. if t == 2 then (false, 5) else (true, 3);
  interrupted = λ _. false;
  commits = λ _. true;
  quarantines = λ _. true;
}

abbrev small_limits : Limits
small_limits = record { batch_size = 2; retry_window = 100; backoff_min = 10; backoff_max = 40 }

abbrev start_world : World
start_world = record { tick = 0; now = 0; trace = [] }

-- A broker that makes every commit, also where it reports an error.
abbrev every_time : List Effect → Bool
every_time h = true

abbrev three_records : List KafkaRecord
three_records = record_at 0 (7 ∷ []) ∷ record_at 1 [] ∷ record_at 2 (9 ∷ []) ∷ []

abbrev two_partitions : Fetches
two_partitions = record { partitions = three_records ∷ three_records ∷ []; errors = canceled ∷ [] }

process_partition_lem_example :
    Post
      (λ _ w'.
        Advanced read_event every_time failing_once small_limits start_world three_records w')
      (Halted read_event every_time failing_once small_limits start_world three_records)
      (process_partition failing_once small_limits read_event three_records start_world)
process_partition_lem_example =
    process_partition_lem read_event every_time failing_once small_limits (omega arith)
      (omega arith) three_records start_world tt

persist_lem_example :
    Post
      (λ _ w'.
        Persisted failing_once small_limits
          (event_of 7 ∷ [])
          (record_at 0 (7 ∷ []))
          100
          []
          w'.trace)
      (λ f w'.
        GaveUp failing_once small_limits (event_of 7 ∷ []) (record_at 0 (7 ∷ [])) 100 [] f w')
      (persist failing_once small_limits (event_of 7 ∷ []) (record_at 0 (7 ∷ [])) start_world)
persist_lem_example =
    persist_lem failing_once small_limits (event_of 7 ∷ []) (record_at 0 (7 ∷ [])) start_world
      (omega arith)

process_fetched_lem_example :
    Post
      (λ _ w'.
        Advanced read_event every_time failing_once small_limits start_world
          (flat two_partitions.partitions)
          w'
        × Allowed failing_once small_limits read_event every_time (omega arith) (omega arith) w')
      (λ x w'.
        Halted read_event every_time failing_once small_limits start_world
          (flat two_partitions.partitions)
          x
          w'
        × Allowed failing_once small_limits read_event every_time (omega arith) (omega arith) w')
      (process_fetched failing_once small_limits read_event two_partitions true start_world)
process_fetched_lem_example =
    process_fetched_lem failing_once small_limits read_event every_time (omega arith) (omega arith)
      two_partitions true start_world tt

abbrev two_fetches : List Fetches
two_fetches = two_partitions ∷ two_partitions ∷ []

run-Polled_example :
    Post
      (λ _ w'.
        Polled failing_once small_limits read_event every_time
          (omega arith)
          (omega arith)
          start_world
          two_fetches
          w')
      (Halted read_event every_time failing_once small_limits start_world (
        records failing_once small_limits read_event every_time
          (omega arith)
          (omega arith)
          two_fetches))
      (run failing_once small_limits read_event (λ t. t == 20) two_fetches start_world)
run-Polled_example =
    run-Polled failing_once small_limits read_event every_time (omega arith) (omega arith)
      (λ t. t == 20) two_fetches start_world tt

abbrev reader_config : ReaderConfig
reader_config = record {
  brokers = codes "kafka:9092" ∷ [];
  topic = codes "events";
  dlq_topic = codes "events.dlq";
  group_id = codes "writers";
  batch_size = pos 0;
  attempt_timeout = pos 0;
  retry_window = pos 0;
  backoff_min = pos 0;
  backoff_max = pos 0;
}

reader_made : new_reader true true reader_config ≡ ok (reader_defaults reader_config)
unfolding new_reader valid_config reader_defaults
reader_made = refl

abbrev publisher_config : PublisherConfig
publisher_config = record {
  brokers = codes "kafka:9092" ∷ [];
  topic = codes "events";
  max_buffered_bytes = pos 0;
  max_buffered_records = pos 10;
  publish_timeout = pos 0;
}

-- encoding/json that writes every envelope as `{}`.
abbrev plain_json : Json
plain_json = record {
  valid = λ _. true;
  tokens = λ _. (opening ∷ closing ∷ [], true);
  is_object = λ _. true;
  decode_input = λ _. none;
  decode_envelope = λ _. none;
  decode_events = λ _. none;
  at_end = λ rest. length rest == 0;
  encode_envelope = λ _. some (codes "{}");
}

abbrev answering : Broker
answering = record { answer = λ _. none; order = λ n. 1 ∷ 0 ∷ []; patience = 2 }

abbrev both_records : List KafkaRecord
both_records =
    record_of plain_json (λ n. n ∷ []) (codes "events") (event_of 7) (codes "{}")
    ∷ record_of plain_json (λ n. n ∷ []) (codes "events") (event_of 9) (codes "{}")
    ∷ []

both_published :
    publish_events plain_json
      (λ n. n ∷ [])
      (codes "events")
      answering
      (event_of 7 ∷ event_of 9 ∷ [])
    ≡ published both_records
unfolding publish_events records_of encode_envelope accept validate valid_text utf8_valid
    contains_nul is_zero valid_jsonb valid_unicode_json ◌+ℤ◌ valid_tenant send
both_published = refl

both_ordered : (i : ℕ) → i < 2 → Memᴰ i (1 ∷ 0 ∷ [])
both_ordered zero h = Memᴰ.tail (Memᴰ.head refl)
both_ordered (suc zero) h = Memᴰ.head refl
both_ordered (suc (suc i)) h = absurd (omega arith)

publish_events-published_example :
    Encoded plain_json (λ n. n ∷ []) (codes "events") (event_of 7 ∷ event_of 9 ∷ []) both_records
    × ((i : ℕ) → i < length both_records → answering.answer i ≡ none)
publish_events-published_example =
    publish_events-published plain_json (λ n. n ∷ []) (codes "events") answering
      (event_of 7 ∷ event_of 9 ∷ []) both_records both_ordered both_published
