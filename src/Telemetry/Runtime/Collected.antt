-- ===== src/Telemetry/Runtime/Collected.antt =====
-- What a collection sends: described series, and none of them twice.
use mathlib.Core.List.{Sublistᴰ}
use mathlib.Core.List.Sublistᴰ
use ingestkit.Prelude.{
  ◌≡◌, refl, Bool, true, Bool-cases, inl, inr, Option, none, some, List, [], ◌∷◌, ◌++◌, map, Bytes,
  bytes_eq, codes, ℤ, pos, leb_ℤ, all, ap, and_iff,
}
use ingestkit.Telemetry.Series.{Series, labels_eq, member, distinct, distinct-Sublist}
use ingestkit.Telemetry.Limits.{Limit, unavailable, unlimited, known, ProcessLimits}
use ingestkit.Telemetry.Runtime.{
  PoolStat, Metric, gauge, counter, RuntimeMetrics, named, available, descriptors, pool_metrics,
  producer_metrics, api_metrics, limit_metrics, limits_metrics, process_limits, asked, collect,
}

abbrev pub series_of : Metric → Series
series_of (gauge s v) = s
series_of (counter s v) = s

abbrev pub sent : List Metric → List Series
sent ms = map series_of ms

abbrev pool_names : List Bytes
pool_names =
    codes "db_pool_available"
    ∷ codes "db_pool_max_conns"
    ∷ codes "db_pool_acquired_conns"
    ∷ codes "db_pool_idle_conns"
    ∷ codes "db_pool_total_conns"
    ∷ codes "db_pool_empty_acquires_total"
    ∷ codes "db_pool_empty_acquire_wait_seconds_total"
    ∷ codes "db_pool_cancelled_acquires_total"
    ∷ codes "db_pool_acquire_seconds_total"
    ∷ []

abbrev producer_names : List Bytes
producer_names =
    codes "producer_buffer_available"
    ∷ codes "producer_max_buffered_records"
    ∷ codes "producer_max_buffered_bytes"
    ∷ codes "producer_buffered_records"
    ∷ codes "producer_buffered_bytes"
    ∷ []

abbrev limit_names : List Bytes
limit_names =
    codes "process_fd_soft_limit"
    ∷ codes "process_fd_hard_limit"
    ∷ codes "process_open_fds"
    ∷ codes "process_ephemeral_port_first"
    ∷ codes "process_ephemeral_port_last"
    ∷ []

abbrev of_limits : List Bytes → List Series
of_limits [] = []
of_limits (n ∷ ns) = (available n ∷ named n ∷ []) ++ of_limits ns

-- Everything that a collection can send, in its order.
unfoldable everything : List Series
everything =
    map named pool_names
    ++ (map named producer_names
        ++ (map named (codes "api_connection_limit" ∷ []) ++ of_limits limit_names))

-- The series of the described metrics: without a label, and one for each limit.
abbrev pub is_described : Series → Bool
is_described s = member s (map named descriptors ++ map available limit_names)

nothing_of : {A : Type 0} (xs : List A) → Sublistᴰ [] xs
nothing_of [] = Sublistᴰ.slnil
nothing_of (x ∷ xs) = Sublistᴰ.cons (nothing_of xs)

all_of : {A : Type 0} (xs : List A) → Sublistᴰ xs xs
all_of [] = Sublistᴰ.slnil
all_of (x ∷ xs) = Sublistᴰ.cons-cons refl (all_of xs)

sent-append : (xs ys : List Metric) → sent (xs ++ ys) ≡ sent xs ++ sent ys
sent-append [] ys = refl
sent-append (x ∷ xs) ys = ap (λ l. series_of x ∷ l) (sent-append xs ys)

-- A part of a list of metrics is within a part of a list of series.
both :
    (xs ys : List Metric) (vs ws : List Series)
    → Sublistᴰ (sent xs) vs
    → Sublistᴰ (sent ys) ws
    → Sublistᴰ (sent (xs ++ ys)) (vs ++ ws)
both xs ys vs ws d e = rw sent-append (Sublistᴰ.append d e)

pool_within : (s : Option PoolStat) → Sublistᴰ (sent (pool_metrics s)) (map named pool_names)
unfolding pool_metrics
pool_within none = Sublistᴰ.cons-cons refl (nothing_of _)
pool_within (some s) = all_of _

producer_within :
    (a b : ℤ) (p : Option (ℤ × ℤ))
    → Sublistᴰ (sent (producer_metrics a b p)) (map named producer_names)
unfolding producer_metrics
producer_within a b none = Sublistᴰ.cons-cons refl (nothing_of _)
producer_within a b (some (r, n)) = all_of _

api_within :
    (limit : ℤ)
    → Sublistᴰ (sent (api_metrics limit)) (map named (codes "api_connection_limit" ∷ []))
unfolding api_metrics
api_within limit = elim (Bool-cases (leb_ℤ (pos 1) limit)) [
  | inl e ↦ rw e (all_of _)
  | inr e ↦ rw e (nothing_of _)
]

limit_within :
    (name : Bytes) (l : Limit)
    → Sublistᴰ (sent (limit_metrics name l)) (available name ∷ named name ∷ [])
unfolding limit_metrics
limit_within name unavailable = Sublistᴰ.cons-cons refl (nothing_of _)
limit_within name unlimited = all_of _
limit_within name (known n) = all_of _

limits_within :
    (ls : List (Bytes × Limit))
    → Sublistᴰ (sent (limits_metrics ls)) (of_limits (map (λ l. l.0) ls))
unfolding limits_metrics
limits_within [] = Sublistᴰ.slnil
limits_within ((name, l) ∷ ls) =
    both (limit_metrics name l) (limits_metrics ls) (available name ∷ named name ∷ []) _
      (limit_within name l) (limits_within ls)

described-Sublist :
    (xs ys : List Series) → Sublistᴰ xs ys → all is_described ys ≡ true → all is_described xs ≡ true
described-Sublist xs ys Sublistᴰ.slnil h = h
described-Sublist xs (y ∷ ys) (Sublistᴰ.cons d) h =
    described-Sublist xs ys d ((and_iff (is_described y) (all is_described ys)).0 h).1
described-Sublist (x ∷ xs) (y ∷ ys) (Sublistᴰ.cons-cons e d) h =
    let (here, rest) = (and_iff (is_described y) (all is_described ys)).0 h in
    rw e ((and_iff (is_described y) (all is_described xs)).1 (here, described-Sublist xs ys d rest))

module _ {Pool Producer : Type 0} (stat : Pool → PoolStat) (buffered : Producer → ℤ × ℤ) where
  collect_within :
      (limits : ProcessLimits) (r : RuntimeMetrics Pool Producer)
      → Sublistᴰ (sent (collect stat buffered limits r)) everything
  unfolding collect everything
  collect_within limits r =
      let pool = pool_metrics (asked stat r.pool) in
      let producer = producer_metrics r.max_records r.max_bytes (asked buffered r.producer) in
      let api = api_metrics r.api_limit in
      let process = limits_metrics (process_limits limits) in
      let api_names = map named (codes "api_connection_limit" ∷ []) in
      both pool (producer ++ (api ++ process)) (map named pool_names) _
        (pool_within (asked stat r.pool))
        (both producer (api ++ process) (map named producer_names) _
          (producer_within r.max_records r.max_bytes (asked buffered r.producer))
          (both api process api_names _ (api_within r.api_limit)
            (limits_within (process_limits limits))))

  -- Whatever is registered and whatever the limits are, a collection sends only series of metrics
  -- that are described, and no series twice.
  pub collect-distinct :
      (limits : ProcessLimits) (r : RuntimeMetrics Pool Producer)
      → (all is_described (sent (collect stat buffered limits r)) ≡ true)
        × (distinct (sent (collect stat buffered limits r)) ≡ true)
  unfolding everything labels_eq bytes_eq
  collect-distinct limits r =
      let within = collect_within limits r in
      (described-Sublist _ everything within refl, distinct-Sublist _ everything within refl)
