-- ===== src/Telemetry/Metrics.antt =====
-- internal/telemetry/metrics.go: the observations of the program, as the calls that they make of
-- the metrics library. The values of durations are in nanoseconds.
pub mod Bounded
use ingestkit.Prelude.{
  ℕ, Bool, true, false, List, [], ◌∷◌, ◌++◌, map, Bytes, codes, ℤ, pos, sub_ℕ, leb_ℤ, ◌+ℤ◌,
  if◌then◌else◌,
}
use ingestkit.Persistence.{WriteResult}
use ingestkit.Telemetry.Series.{Series, one_of}

pub data Value : Type 0 where
  number duration : ℤ → Value

-- `inc` and `add` are calls of a counter, `observe` of a histogram.
pub data Call : Type 0 where
  inc : Series → Call
  add observe : Series → Value → Call

abbrev pub routes : List Bytes
routes = codes "single" ∷ codes "batch" ∷ codes "health" ∷ codes "ready" ∷ codes "metrics" ∷ []

abbrev pub outcomes : List Bytes
outcomes = codes "success" ∷ codes "error" ∷ codes "saturated" ∷ codes "timeout" ∷ []

abbrev pub statuses : List Bytes
statuses =
    codes "200"
    ∷ codes "202"
    ∷ codes "400"
    ∷ codes "401"
    ∷ codes "404"
    ∷ codes "413"
    ∷ codes "429"
    ∷ codes "500"
    ∷ codes "503"
    ∷ []

abbrev pub reasons : List Bytes
reasons = codes "buffer_saturated" ∷ codes "timeout" ∷ codes "broker_error" ∷ []

-- A switch over texts that lets the texts of its case through.
unfoldable pub normalized : List Bytes → Bytes → Bytes → Bytes
normalized cases fallback s = if one_of s cases then s else fallback

abbrev pub route : Bytes → Bytes
route s = normalized routes (codes "other") s

abbrev pub outcome : Bytes → Bytes
outcome s = normalized outcomes (codes "error") s

abbrev pub plain : Bytes → Series
plain name = (name, [])

unfoldable pub observe_http : Bytes → Bytes → ℤ → List Call
observe_http r s d =
    let status = normalized statuses (codes "other") s in
    inc (codes "ingestkit_http_total", route r ∷ status ∷ [])
    ∷ observe (codes "ingestkit_http_seconds", route r ∷ []) (duration d)
    ∷ []

unfoldable pub observe_publish : Bytes → ℤ → List Call
observe_publish o d = observe (codes "ingestkit_publish_seconds", outcome o ∷ []) (duration d) ∷ []

-- From the receipt of an event to now; what the clocks would make negative counts as nothing.
unfoldable pub elapsed : ℕ → ℕ → ℤ
elapsed now at = let d = sub_ℕ now at in if leb_ℤ (pos 0) d then d else pos 0

abbrev pub receipt : ℕ → ℕ → Call
receipt now at =
    observe (plain (codes "ingestkit_receipt_to_storage_seconds")) (duration (elapsed now at))

unfoldable pub observe_write : WriteResult → List ℕ → ℤ → ℕ → List Call
observe_write r received d now =
    (add (plain (codes "ingestkit_stored_total")) (number (pos r.inserted))
      ∷ add (plain (codes "ingestkit_duplicates_total")) (number r.duplicates)
      ∷ observe (plain (codes "ingestkit_storage_seconds")) (duration d)
      ∷ observe (plain (codes "ingestkit_batch_events")) (number (pos r.inserted +ℤ r.duplicates))
      ∷ [])
    ++ map (receipt now) received

unfoldable pub observe_retry : List Call
observe_retry = inc (plain (codes "ingestkit_retries_total")) ∷ []

unfoldable pub observe_quarantine : Bytes → List Call
observe_quarantine o = inc (codes "ingestkit_quarantine_total", outcome o ∷ []) ∷ []

unfoldable pub observe_publish_failure : Bytes → List Call
observe_publish_failure reason =
    inc (
      codes "ingestkit_publish_failures_total",
      normalized reasons (codes "broker_error") reason ∷ [],
    )
    ∷ []
