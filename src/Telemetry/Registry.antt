-- ===== src/Telemetry/Registry.antt =====
-- internal/telemetry/metrics.go: what `New` registers with the metrics library.
pub mod Registered
use ingestkit.Prelude.{
  ℕ, Bool, true, false, not, ◌&&◌, ◌||◌, List, [], ◌∷◌, ◌++◌, map, Bytes, bytes_eq, codes, length,
  ◌==◌, ℤ, pos, leb_ℤ,
}
use ingestkit.Telemetry.Metrics.{Value, number, duration, Call, inc, add, observe}
use ingestkit.Telemetry.Runtime.{descriptors}

pub data Kind : Type 0 where
  counter histogram : Kind

-- A metric, or a family of metrics, with the names of its labels.
pub record Description : Type 0 where
  pub name : Bytes
  pub kind : Kind
  pub labels : List Bytes

abbrev describe : Bytes → Kind → List Bytes → Description
describe name kind labels = record { name = name; kind = kind; labels = labels }

-- The metrics of `New`, in the order in which they are registered, behind the collector of the
-- runtime measurements.
unfoldable pub new_metrics : List Description
new_metrics =
    describe (codes "ingestkit_publish_failures_total") counter (codes "reason" ∷ [])
    ∷ describe (codes "ingestkit_http_total") counter (codes "route" ∷ codes "status" ∷ [])
    ∷ describe (codes "ingestkit_http_seconds") histogram (codes "route" ∷ [])
    ∷ describe (codes "ingestkit_publish_seconds") histogram (codes "outcome" ∷ [])
    ∷ describe (codes "ingestkit_stored_total") counter []
    ∷ describe (codes "ingestkit_duplicates_total") counter []
    ∷ describe (codes "ingestkit_retries_total") counter []
    ∷ describe (codes "ingestkit_storage_seconds") histogram []
    ∷ describe (codes "ingestkit_receipt_to_storage_seconds") histogram []
    ∷ describe (codes "ingestkit_batch_events") histogram []
    ∷ describe (codes "ingestkit_quarantine_total") counter (codes "outcome" ∷ [])
    ∷ []

-- The names that are registered, those of the runtime measurements first.
unfoldable pub names : List Bytes
unfolding new_metrics
names = map (λ n. codes "ingestkit_" ++ n) descriptors ++ map (λ d. d.name) new_metrics

-- The library panics at a call for a metric of another kind, or with another number of labels, and
-- where a counter is to go down.
abbrev same_kind : Kind → Kind → Bool
same_kind counter counter = true
same_kind histogram histogram = true
same_kind _ _ = false

abbrev asked_kind : Call → Kind
asked_kind (inc s) = counter
asked_kind (add s v) = counter
asked_kind (observe s v) = histogram

abbrev asked : Call → Bytes × List Bytes
asked (inc s) = s
asked (add s v) = s
asked (observe s v) = s

abbrev amount : Value → ℤ
amount (number n) = n
amount (duration n) = n

abbrev goes_up : Call → Bool
goes_up (inc s) = true
goes_up (add s v) = leb_ℤ (pos 0) (amount v)
goes_up (observe s v) = true

abbrev fits_description : Call → Description → Bool
fits_description c d =
    bytes_eq d.name (asked c).0
    && same_kind d.kind (asked_kind c)
    && (length d.labels == length (asked c).1)
    && goes_up c

unfoldable pub accepted_by : List Description → Call → Bool
accepted_by [] c = false
accepted_by (d ∷ ds) c = fits_description c d || accepted_by ds c

abbrev pub one_of_names : Bytes → List Bytes → Bool
one_of_names n [] = false
one_of_names n (m ∷ ms) = bytes_eq m n || one_of_names n ms

abbrev pub distinct_names : List Bytes → Bool
distinct_names [] = true
distinct_names (n ∷ ns) = not (one_of_names n ns) && distinct_names ns
