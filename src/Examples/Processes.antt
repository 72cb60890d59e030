-- ===== src/Examples/Processes.antt =====
-- The processes on concrete data: supervision, measurements, shutdown and quarantine.
use ingestkit.Prelude.{
  ℕ, ◌≡◌, inl, true, Option, none, some, List, [], ◌∷◌, Bytes, codes, ok, pos, ℤ, leb, length, ◌++◌,
  zero, suc, All, arith, if◌then◌else◌,
}
use ingestkit.Service.Health.{new_processing_health, observe_all}
use ingestkit.Service.Lifecycle.{ServiceError, cancelled, failure, Context, Select, supervise}
use ingestkit.Service.Lifecycle.Supervision.{DoneFrom, EndsBy, supervise-EndsBy}
use ingestkit.Telemetry.Series.{distinct}
use ingestkit.Telemetry.Metrics.Bounded.{
  Observation, http, publish, retry, all_calls, all_series, IsKnown, all_calls-IsKnown,
}
use ingestkit.Telemetry.Limits.{ProcessLimits, capture_limits}
use ingestkit.Telemetry.Runtime.{PoolStat, RuntimeMetrics}
use ingestkit.Messaging.Records.{KafkaRecord}
use ingestkit.Messaging.World.{notified, storage, observed_retry}
use ingestkit.Messaging.Publisher.{Broker}
use ingestkit.Messaging.Quarantine.{QuarantinedRecord}
use ingestkit.Commands.Consumer.{readiness, Ending, finish}
use ingestkit.Commands.Consumer.Readiness.{reports_of, readiness-finish}

-- A signal arrives at the eighth moment, in the second round.
abbrev signal : Context
signal n = if leb 8 n then some cancelled else none

signal-DoneFrom : DoneFrom signal 8
signal-DoneFrom n h e = absurd (ground (arith, h, e))

abbrev never : Context
never n = none

abbrev failing : ℕ → Option ServiceError
failing n = some (failure n)

abbrev waits : ℕ → Select
waits n = record { timer_first = true; stop_first = true }

supervise-EndsBy_example :
    EndsBy signal never failing waits 8 0 0 (supervise signal never failing waits 3 0 0)
supervise-EndsBy_example =
    supervise-EndsBy signal never failing waits 8 3 0 0 (inl signal-DoneFrom) (omega arith)
      (omega arith)

abbrev some_observations : List Observation
some_observations =
    http (codes "batch") (codes "202") (pos 5)
    ∷ http (codes "/favicon") (codes "418") (pos 1)
    ∷ publish (codes "saturated") (pos 2)
    ∷ retry
    ∷ []

all_calls-IsKnown_example :
    All IsKnown (all_calls some_observations)
    × ((length all_series ≡ 83) × (distinct all_series ≡ true))
all_calls-IsKnown_example = all_calls-IsKnown some_observations

abbrev idle_pool : ℕ → PoolStat
idle_pool n = record {
  max_conns = pos n;
  acquired_conns = pos 0;
  idle_conns = pos 1;
  total_conns = pos 1;
  empty_acquire_count = pos 0;
  empty_acquire_wait_time = pos 0;
  canceled_acquire_count = pos 0;
  acquire_duration = pos 7;
}

abbrev some_limits : ProcessLimits
some_limits =
    capture_limits (some (record { soft = 1024; hard = 9; infinity = 9 })) none
      (some (codes "32768\t60999"))

abbrev one_pool : RuntimeMetrics ℕ ℕ
one_pool = record {
  pool = some 4;
  producer = none;
  max_records = pos 0;
  max_bytes = pos 0;
  api_limit = pos 256;
}

abbrev nothing_buffered : ℕ → ℤ × ℤ
nothing_buffered n = (pos 0, pos 0)

abbrev asked_to_stop : Ending
asked_to_stop = record {
  serve = none;
  has_reader = true;
  worker = ok none;
  server = none;
  close = none;
}

abbrev poison : KafkaRecord
poison = record {
  topic = codes "events";
  partition = 2;
  offset = 17;
  key = codes "acme";
  headers = [];
  value = codes "{";
}

readiness-finish_example :
    readiness
      (observe_all
        (finish asked_to_stop new_processing_health).0
        (reports_of (notified storage poison true ∷ observed_retry ∷ [])))
      none
      (some none)
    ≡ 503
readiness-finish_example =
    readiness-finish asked_to_stop new_processing_health
      (notified storage poison true ∷ observed_retry ∷ []) none (some none)

-- An encoder that writes the value, the place and the cause, behind the length of the value.
abbrev encoder : QuarantinedRecord → Option Bytes
encoder q = some (length q.value ∷ q.value ++ q.partition ∷ q.offset ∷ q.error)

abbrev acknowledging : Broker
acknowledging = record {
  answer = λ place. none;
  order = λ n. elim n [ zero ↦ [] | suc m ↦ 0 ∷ [] ];
  patience = 1;
}
