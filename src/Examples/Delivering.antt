-- ===== src/Examples/Delivering.antt =====
-- A partition with three records, on which one process fails at a commit that the broker has made,
-- and a second one goes on.
use mathlib.Core.List.{Memᴰ}
use ingestkit.Prelude.{
  ℕ, zero, suc, ◌≡◌, ◌<◌, refl, Bool, true, false, none, some, List, [], ◌∷◌, ◌++◌, Bytes, Result,
  ok, err, All, length, codes, arith, sym, ap, ◌∙◌, inl, inr, Bool-cases, ◌&&◌, ◌==◌, bytes_eq,
  bytes_eq_iff, if◌then◌else◌, ◌+ℤ◌,
}
use ingestkit.Event.{
  Envelope, Json, opening, closing, valid_jsonb, valid_unicode_json, utf8_valid, accept, validate,
  valid_text, contains_nul, valid_tenant, encode_envelope, decode_envelope, decode,
}
use ingestkit.Event.Types.{is_zero}
use ingestkit.Event.Laws.Broker.{SameEvent}
use ingestkit.Messaging.Records.{KafkaRecord}
use ingestkit.Messaging.World.{Env, World, ◌>>=◌, pure, fail, emit, ask, clock, pass}
use ingestkit.Messaging.Process.{
  Limits, process_partition, persist, flush, check_context, unless_failed, next_backoff,
}
use ingestkit.Messaging.Process.Durable.{progress}
use ingestkit.Messaging.Process.Undisturbed.{Undisturbed}
use ingestkit.Messaging.Delivery.EndToEnd.{ReadsBack, Passed, passed_as, HasRow, published-HasRow}
use ingestkit.Messaging.Publisher.{Broker, published, record_of, records_of, publish_events, send}
use ingestkit.Messaging.Delivery.{Key, first, InsertsNew, Lost, ended, Reach, here, next}
use ingestkit.Messaging.Delivery.Stored.{first-append, first-append_some}
use ingestkit.Messaging.Delivery.AtLeastOnce.{
  IsDelivered, Reach-IsDelivered, Undisturbed-IsDelivered,
}

abbrev event_of : ℕ → Envelope
event_of n = record {
  input = record {
    event_id = n;
    event_type = codes "click";
    occurred_at = record { instant = 1; zone = codes "UTC" };
    payload = codes "{}";
  };
  tenant_id = codes "acme";
  received_at = record { instant = 2; zone = codes "UTC" };
}

-- A text of one byte or more decodes.
abbrev read_event : Bytes → Result Bool Envelope
read_event [] = err true
read_event (n ∷ _) = ok (event_of n)

abbrev record_at : ℕ → Bytes → KafkaRecord
record_at n value = record {
  topic = codes "events";
  partition = 0;
  offset = n;
  key = [];
  headers = [];
  value = value;
}

abbrev log : List KafkaRecord
log = record_at 0 (7 ∷ []) ∷ record_at 1 [] ∷ record_at 2 (7 ∷ []) ∷ []

abbrev env_with : Bool → Env
env_with commits = record {
  done = λ _. false;
  writes = λ t. (true, 3);
  interrupted = λ _. false;
  commits = λ _. commits;
  quarantines = λ _. true;
}

abbrev small_limits : Limits
small_limits = record { batch_size = 2; retry_window = 100; backoff_min = 10; backoff_max = 40 }

abbrev start_world : World
start_world = record { tick = 0; now = 0; trace = [] }

-- Every commit is made, also one that reports an error.
abbrev answers_lost : Lost
answers_lost = record { writes = λ _. true; commits = λ _. true }

-- A table as the list of the events that were inserted: the first with a key counts.
abbrev add_rows : List Envelope → List Envelope → List Envelope
add_rows es t = t ++ es

add_rows-InsertsNew : InsertsNew first add_rows
add_rows-InsertsNew = record {
  kept = λ k es t e h. first-append_some k t es e h;
  added = λ k es t h. added_rows k es t h;
}
  where
    added_rows :
        (k : Key) (es t : List Envelope) → first k t ≡ none → first k (t ++ es) ≡ first k es
    added_rows k es t h = rw (first-append k t es, h) refl

nothing_yet : (k : Key) → first k [] ≡ none
unfolding first
nothing_yet k = refl

abbrev after_first : World
after_first = (process_partition (env_with false) small_limits read_event log start_world).1

from_the_start : progress answers_lost.commits start_world.trace ++ (log ++ []) ≡ log
unfolding progress
from_the_start = refl

abbrev rest_of_log : List KafkaRecord
rest_of_log = record_at 1 [] ∷ record_at 2 (7 ∷ []) ∷ []

passed_first : progress answers_lost.commits after_first.trace ++ rest_of_log ≡ log
unfolding progress process_partition persist flush ◌>>=◌ pure fail emit ask clock pass check_context
    unless_failed next_backoff
passed_first = refl

first_reached : Reach answers_lost read_event small_limits log start_world after_first
first_reached = next here (ended (env_with false) log [] from_the_start)

Reach-IsDelivered_example :
    (ahead : List KafkaRecord) × (progress answers_lost.commits after_first.trace ++ ahead ≡ log)
    × All
        (IsDelivered answers_lost read_event small_limits
          (omega arith)
          (omega arith)
          log
          first
          add_rows
          []
          add_rows-InsertsNew
          nothing_yet
          after_first.trace)
        (progress answers_lost.commits after_first.trace)
Reach-IsDelivered_example =
    Reach-IsDelivered answers_lost read_event small_limits (omega arith) (omega arith) log first
      add_rows [] add_rows-InsertsNew nothing_yet start_world after_first refl first_reached

answering_well : Undisturbed (env_with true)
answering_well = record {
  going_on = λ _. refl;
  written = λ _. refl;
  committed = λ _. refl;
  set_aside = λ _. refl;
}

Undisturbed-IsDelivered_example :
    ((process_partition (env_with true) small_limits read_event rest_of_log after_first).0 ≡ ok tt)
    × (progress answers_lost.commits
          (process_partition
            (env_with true)
            small_limits
            read_event
            rest_of_log
            after_first).1.trace
        ≡ log)
    × All
        (IsDelivered answers_lost read_event small_limits
          (omega arith)
          (omega arith)
          log
          first
          add_rows
          []
          add_rows-InsertsNew
          nothing_yet
          (process_partition
            (env_with true)
            small_limits
            read_event
            rest_of_log
            after_first).1.trace)
        log
Undisturbed-IsDelivered_example =
    Undisturbed-IsDelivered answers_lost read_event small_limits (omega arith) (omega arith) log
      first add_rows [] add_rows-InsertsNew nothing_yet start_world after_first refl first_reached
      (env_with true) rest_of_log answering_well passed_first

-- An encoding/json that knows one event and its text.
abbrev is_seven : Envelope → Bool
is_seven e =
    (e.event_id == 7)
    && bytes_eq e.event_type (codes "click")
    && (e.occurred_at.instant == 1)
    && bytes_eq e.payload (codes "{}")
    && bytes_eq e.tenant_id (codes "acme")
    && (e.received_at.instant == 2)

abbrev one_json : Json
one_json = record {
  valid = λ _. true;
  tokens = λ _. (opening ∷ closing ∷ [], true);
  is_object = λ _. true;
  decode_input = λ _. none;
  decode_envelope = λ _. some (event_of 7, []);
  decode_events = λ _. none;
  at_end = λ rest. length rest == 0;
  encode_envelope = λ e. if is_seven e then some (codes "{}") else none;
}

same_seven : (e : Envelope) → is_seven e ≡ true → SameEvent one_json e (event_of 7)
same_seven e p = record {
  event_id = ground arith;
  event_type = sym ((bytes_eq_iff e.event_type (codes "click")).0 (ground arith));
  occurred_at = ground arith;
  tenant_id = sym ((bytes_eq_iff e.tenant_id (codes "acme")).0 (ground arith));
  received_at = ground arith;
  object = refl;
  jsonb = ap (valid_jsonb one_json) (sym ((bytes_eq_iff e.payload (codes "{}")).0 (ground arith)));
}

braces_text : valid_unicode_json (codes "{}") ≡ true
unfolding valid_unicode_json utf8_valid
braces_text = refl

one_json-ReadsBack : (e : Envelope) → ReadsBack one_json e
one_json-ReadsBack e raw h = elim (Bool-cases (is_seven e)) [
  | inl p ↦
      let text : codes "{}" ≡ raw = ground arith in
      (event_of 7, [], refl, refl, ap valid_unicode_json (sym text) ∙ braces_text, same_seven e p)
  | inr p ↦ absurd (ground arith)
]

abbrev broker : Broker
broker = record { answer = λ _. none; order = λ n. 0 ∷ []; patience = 2 }

abbrev one_record : KafkaRecord
one_record = record_of one_json (λ n. n ∷ []) (codes "events") (event_of 7) (codes "{}")

one_published :
    publish_events one_json (λ n. n ∷ []) (codes "events") broker (event_of 7 ∷ [])
    ≡ published (one_record ∷ [])
unfolding publish_events records_of encode_envelope accept validate valid_text utf8_valid
    contains_nul is_zero valid_jsonb valid_unicode_json ◌+ℤ◌ valid_tenant send bytes_eq
one_published = refl

answered_each : (i : ℕ) → i < 1 → Memᴰ i (0 ∷ [])
answered_each zero h = Memᴰ.head refl
answered_each (suc i) h = absurd (omega arith)

abbrev after_one : World
after_one =
    (process_partition (env_with true) small_limits (decode_envelope one_json) (one_record ∷ [])
      start_world).1

one_passed : progress answers_lost.commits after_one.trace ≡ one_record ∷ []
unfolding progress process_partition persist flush ◌>>=◌ pure fail emit ask clock pass check_context
    unless_failed next_backoff decode_envelope decode accept validate valid_text utf8_valid
    contains_nul is_zero valid_jsonb valid_unicode_json ◌+ℤ◌ valid_tenant bytes_eq record_of
one_passed = refl

one_at_start :
    progress answers_lost.commits start_world.trace ++ ((one_record ∷ []) ++ []) ≡ one_record ∷ []
unfolding progress
one_at_start = refl

one_reached :
    Reach answers_lost
      (decode_envelope one_json)
      small_limits
      (one_record ∷ [])
      start_world
      after_one
one_reached = next here (ended (env_with true) (one_record ∷ []) [] one_at_start)

value-Passed : Passed one_record.value (progress answers_lost.commits after_one.trace)
value-Passed = rw one_passed (passed_as (Memᴰ.head refl) refl)

published-HasRow_example :
    All
      (HasRow one_json answers_lost small_limits
        (omega arith)
        (omega arith)
        (one_record ∷ [])
        first
        add_rows
        []
        add_rows-InsertsNew
        nothing_yet
        after_one.trace)
      (event_of 7 ∷ [])
published-HasRow_example =
    published-HasRow one_json answers_lost small_limits (omega arith) (omega arith)
      (one_record ∷ []) first add_rows [] add_rows-InsertsNew nothing_yet start_world after_one refl
      one_reached (λ n. n ∷ []) (codes "events") broker (event_of 7 ∷ []) (one_record ∷ [])
      (one_json-ReadsBack (event_of 7), tt) answered_each one_published (value-Passed, tt)
