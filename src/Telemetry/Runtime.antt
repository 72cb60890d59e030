-- ===== src/Telemetry/Runtime.antt =====
-- internal/telemetry/pool.go: the measurements of the running process, collected on request.
pub mod Collected
use ingestkit.Prelude.{
  ℕ, Bool, true, false, Option, none, some, List, [], ◌∷◌, ◌++◌, map, Bytes, codes, ℤ, pos, negsuc,
  leb_ℤ, if◌then◌else◌,
}
use ingestkit.Telemetry.Series.{Series}
use ingestkit.Telemetry.Limits.{Limit, unavailable, unlimited, known, ProcessLimits}

-- One snapshot of the statistics of a pool of connections; durations are in nanoseconds.
pub record PoolStat : Type 0 where
  pub max_conns : ℤ
  pub acquired_conns : ℤ
  pub idle_conns : ℤ
  pub total_conns : ℤ
  pub empty_acquire_count : ℤ
  pub empty_acquire_wait_time : ℤ
  pub canceled_acquire_count : ℤ
  pub acquire_duration : ℤ

pub data Measure : Type 0 where
  whole seconds : ℤ → Measure
  infinite : Measure

pub data Metric : Type 0 where
  gauge counter : Series → Measure → Metric

-- What has been registered: the pool and the producer are asked at each collection.
pub record RuntimeMetrics (Pool Producer : Type 0) : Type 0 where
  pub pool : Option Pool
  pub producer : Option Producer
  pub max_records : ℤ
  pub max_bytes : ℤ
  pub api_limit : ℤ

abbrev pub named : Bytes → Series
named name = (codes "ingestkit_" ++ name, [])

-- The series that tells whether a limit is available.
abbrev pub available : Bytes → Series
available name = (codes "ingestkit_process_limit_available", name ∷ [])

abbrev flag : Bool → Measure
flag b = whole (pos (if b then 1 else 0))

-- The metrics that are described before any is collected; besides them, the one with a label.
abbrev pub descriptors : List Bytes
descriptors =
    codes "db_pool_available"
    ∷ codes "db_pool_max_conns"
    ∷ codes "db_pool_acquired_conns"
    ∷ codes "db_pool_idle_conns"
    ∷ codes "db_pool_total_conns"
    ∷ codes "db_pool_empty_acquires_total"
    ∷ codes "db_pool_empty_acquire_wait_seconds_total"
    ∷ codes "db_pool_cancelled_acquires_total"
    ∷ codes "db_pool_acquire_seconds_total"
    ∷ codes "producer_buffer_available"
    ∷ codes "producer_max_buffered_records"
    ∷ codes "producer_max_buffered_bytes"
    ∷ codes "producer_buffered_records"
    ∷ codes "producer_buffered_bytes"
    ∷ codes "api_connection_limit"
    ∷ codes "process_fd_soft_limit"
    ∷ codes "process_fd_hard_limit"
    ∷ codes "process_open_fds"
    ∷ codes "process_ephemeral_port_first"
    ∷ codes "process_ephemeral_port_last"
    ∷ []

unfoldable pub pool_metrics : Option PoolStat → List Metric
pool_metrics none = gauge (named (codes "db_pool_available")) (flag false) ∷ []
pool_metrics (some s) =
    gauge (named (codes "db_pool_available")) (flag true)
    ∷ gauge (named (codes "db_pool_max_conns")) (whole s.max_conns)
    ∷ gauge (named (codes "db_pool_acquired_conns")) (whole s.acquired_conns)
    ∷ gauge (named (codes "db_pool_idle_conns")) (whole s.idle_conns)
    ∷ gauge (named (codes "db_pool_total_conns")) (whole s.total_conns)
    ∷ counter (named (codes "db_pool_empty_acquires_total")) (whole s.empty_acquire_count)
    ∷ counter (named (codes "db_pool_empty_acquire_wait_seconds_total"))
        (seconds s.empty_acquire_wait_time)
    ∷ counter (named (codes "db_pool_cancelled_acquires_total")) (whole s.canceled_acquire_count)
    ∷ counter (named (codes "db_pool_acquire_seconds_total")) (seconds s.acquire_duration)
    ∷ []

-- The records and the bytes that the producer has buffered.
unfoldable pub producer_metrics : ℤ → ℤ → Option (ℤ × ℤ) → List Metric
producer_metrics max_records max_bytes none =
    gauge (named (codes "producer_buffer_available")) (flag false) ∷ []
producer_metrics max_records max_bytes (some (records, bytes)) =
    gauge (named (codes "producer_buffer_available")) (flag true)
    ∷ gauge (named (codes "producer_max_buffered_records")) (whole max_records)
    ∷ gauge (named (codes "producer_max_buffered_bytes")) (whole max_bytes)
    ∷ gauge (named (codes "producer_buffered_records")) (whole records)
    ∷ gauge (named (codes "producer_buffered_bytes")) (whole bytes)
    ∷ []

unfoldable pub api_metrics : ℤ → List Metric
api_metrics limit =
    if leb_ℤ (pos 1) limit
    then gauge (named (codes "api_connection_limit")) (whole limit) ∷ []
    else []

unfoldable pub limit_metrics : Bytes → Limit → List Metric
limit_metrics name unavailable = gauge (available name) (flag false) ∷ []
limit_metrics name unlimited = gauge (available name) (flag true) ∷ gauge (named name) infinite ∷ []
limit_metrics name (known n) =
    gauge (available name) (flag true) ∷ gauge (named name) (whole (pos n)) ∷ []

-- The loop over a map, in any order of its names.
unfoldable pub limits_metrics : List (Bytes × Limit) → List Metric
limits_metrics [] = []
limits_metrics ((name, value) ∷ rest) = limit_metrics name value ++ limits_metrics rest

abbrev pub process_limits : ProcessLimits → List (Bytes × Limit)
process_limits l =
    (codes "process_fd_soft_limit", l.soft_fd_limit)
    ∷ (codes "process_fd_hard_limit", l.hard_fd_limit)
    ∷ (codes "process_open_fds", l.open_fds)
    ∷ (codes "process_ephemeral_port_first", l.ephemeral_first)
    ∷ (codes "process_ephemeral_port_last", l.ephemeral_last)
    ∷ []

-- The answer of what is registered, where anything is.
abbrev pub asked {ℓ} : {A B : Type ℓ} → (A → B) → Option A → Option B
asked f none = none
asked f (some a) = some (f a)

module _ {Pool Producer : Type 0} where
  unfoldable pub register_pool :
      Option Pool → RuntimeMetrics Pool Producer → RuntimeMetrics Pool Producer
  register_pool pool r = record r { pool = pool }

  unfoldable pub register_producer :
      Option Producer → ℤ → ℤ → RuntimeMetrics Pool Producer → RuntimeMetrics Pool Producer
  register_producer source max_records max_bytes r = record r {
    producer = source;
    max_records = max_records;
    max_bytes = max_bytes;
  }

  unfoldable pub set_api_connection_limit :
      ℤ → RuntimeMetrics Pool Producer → RuntimeMetrics Pool Producer
  set_api_connection_limit limit r = record r { api_limit = limit }

  -- `stat` and `buffered` are the answers of the pool and the producer at this collection.
  unfoldable pub collect :
      (Pool → PoolStat)
      → (Producer → ℤ × ℤ)
      → ProcessLimits
      → RuntimeMetrics Pool Producer
      → List Metric
  unfolding pool_metrics producer_metrics api_metrics limits_metrics
  collect stat buffered limits r =
      pool_metrics (asked stat r.pool)
      ++ (producer_metrics r.max_records r.max_bytes (asked buffered r.producer)
          ++ (api_metrics r.api_limit ++ limits_metrics (process_limits limits)))
