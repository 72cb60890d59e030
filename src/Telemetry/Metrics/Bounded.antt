-- ===== src/Telemetry/Metrics/Bounded.antt =====
-- The series that the observations make: finitely many, whatever texts they are given.
use ingestkit.Prelude.{
  ℕ, ◌≡◌, refl, true, inl, inr, Bool-cases, List, [], ◌∷◌, ◌++◌, map, Bytes, bytes_eq, codes, ℤ,
  All, All-append, length, arith,
}
use ingestkit.Persistence.{WriteResult}
use ingestkit.Telemetry.Series.{
  Series, labels_eq, member, one_of, with_label, with_labels, member-append_left,
  member-append_right, member-with_label, member-with_labels, distinct,
}
use ingestkit.Telemetry.Metrics.{
  Call, inc, add, observe, routes, outcomes, statuses, reasons, normalized, route, outcome, plain,
  observe_http, observe_publish, receipt, observe_write, observe_retry, observe_quarantine,
  observe_publish_failure,
}

-- One observation with its arguments.
pub data Observation : Type 0 where
  http : (route status : Bytes) (d : ℤ) → Observation
  publish : (outcome : Bytes) (d : ℤ) → Observation
  write : (r : WriteResult) (received : List ℕ) (d : ℤ) (now : ℕ) → Observation
  retry : Observation
  quarantine : (outcome : Bytes) → Observation
  publish_failure : (reason : Bytes) → Observation

abbrev pub calls : Observation → List Call
calls (http r s d) = observe_http r s d
calls (publish o d) = observe_publish o d
calls (write r received d now) = observe_write r received d now
calls retry = observe_retry
calls (quarantine o) = observe_quarantine o
calls (publish_failure reason) = observe_publish_failure reason

abbrev pub all_calls : List Observation → List Call
all_calls [] = []
all_calls (o ∷ os) = calls o ++ all_calls os

abbrev pub series_of : Call → Series
series_of (inc s) = s
series_of (add s v) = s
series_of (observe s v) = s

-- The calls of a write but for the receipts.
abbrev write_calls : WriteResult → ℤ → List Call
write_calls r d = observe_write r [] d 0

abbrev or_other : List Bytes → List Bytes
or_other cases = codes "other" ∷ cases

-- The groups of series, by the labels of their metrics.
unfoldable plains : List Series
plains =
    plain (codes "ingestkit_stored_total")
    ∷ plain (codes "ingestkit_duplicates_total")
    ∷ plain (codes "ingestkit_retries_total")
    ∷ plain (codes "ingestkit_storage_seconds")
    ∷ plain (codes "ingestkit_receipt_to_storage_seconds")
    ∷ plain (codes "ingestkit_batch_events")
    ∷ []

unfoldable quarantines : List Series
quarantines = with_label (codes "ingestkit_quarantine_total") outcomes

unfoldable failures : List Series
failures = with_label (codes "ingestkit_publish_failures_total") reasons

unfoldable publishes : List Series
publishes = with_label (codes "ingestkit_publish_seconds") outcomes

unfoldable latencies : List Series
latencies = with_label (codes "ingestkit_http_seconds") (or_other routes)

unfoldable requests : List Series
requests = with_labels (codes "ingestkit_http_total") (or_other routes) (or_other statuses)

abbrev of_requests : List Series
of_requests = latencies ++ requests

abbrev of_calls : List Series
of_calls = publishes ++ of_requests

abbrev of_publishing : List Series
of_publishing = failures ++ of_calls

unfoldable pub all_series : List Series
unfolding plains quarantines failures publishes latencies requests
all_series = plains ++ (quarantines ++ of_publishing)

abbrev pub IsKnown : Call → Type 0
IsKnown c = member (series_of c) all_series ≡ true

module _ (s : Series) where
  from_plains : member s plains ≡ true → member s all_series ≡ true
  unfolding all_series
  from_plains h = member-append_left s plains (quarantines ++ of_publishing) h

  after_plains : member s (quarantines ++ of_publishing) ≡ true → member s all_series ≡ true
  unfolding all_series
  after_plains h = member-append_right s plains (quarantines ++ of_publishing) h

  from_quarantines : member s quarantines ≡ true → member s all_series ≡ true
  from_quarantines h = after_plains (member-append_left s quarantines of_publishing h)

  after_quarantines : member s of_publishing ≡ true → member s all_series ≡ true
  after_quarantines h = after_plains (member-append_right s quarantines of_publishing h)

  from_failures : member s failures ≡ true → member s all_series ≡ true
  from_failures h = after_quarantines (member-append_left s failures of_calls h)

  after_failures : member s of_calls ≡ true → member s all_series ≡ true
  after_failures h = after_quarantines (member-append_right s failures of_calls h)

  from_publishes : member s publishes ≡ true → member s all_series ≡ true
  from_publishes h = after_failures (member-append_left s publishes of_requests h)

  after_publishes : member s of_requests ≡ true → member s all_series ≡ true
  after_publishes h = after_failures (member-append_right s publishes of_requests h)

or_other_lem :
    (cases : List Bytes) (t : Bytes) → one_of t cases ≡ true → one_of t (or_other cases) ≡ true
or_other_lem cases t h = ground (arith, h)

-- What a switch lets through, and what it puts in place of the rest, is among the labels.
normalized_in :
    (cases : List Bytes) (fallback s : Bytes) (all : List Bytes)
    → ((t : Bytes) → one_of t cases ≡ true → one_of t all ≡ true)
    → one_of fallback all ≡ true
    → one_of (normalized cases fallback s) all ≡ true
unfolding normalized
normalized_in cases fallback s all inside here = elim (Bool-cases (one_of s cases)) [
  | inl e ↦ rw e (inside s e)
  | inr e ↦ rw e here
]

or_other_in :
    (cases : List Bytes) (s : Bytes)
    → one_of (normalized cases (codes "other") s) (or_other cases) ≡ true
unfolding bytes_eq
or_other_in cases s =
    normalized_in cases (codes "other") s (or_other cases) (or_other_lem cases) refl

outcome_in : (s : Bytes) → one_of (outcome s) outcomes ≡ true
unfolding bytes_eq
outcome_in s = normalized_in outcomes (codes "error") s outcomes (λ t h. h) refl

reason_in : (s : Bytes) → one_of (normalized reasons (codes "broker_error") s) reasons ≡ true
unfolding bytes_eq
reason_in s = normalized_in reasons (codes "broker_error") s reasons (λ t h. h) refl

receipts-IsKnown : (now : ℕ) (received : List ℕ) → All IsKnown (map (receipt now) received)
unfolding plains labels_eq bytes_eq
receipts-IsKnown now [] = tt
receipts-IsKnown now (at ∷ received) = (from_plains _ refl, receipts-IsKnown now received)

calls-IsKnown : (o : Observation) → All IsKnown (calls o)
unfolding observe_http observe_publish observe_write observe_retry observe_quarantine
    observe_publish_failure plains quarantines failures publishes latencies requests labels_eq
    bytes_eq
calls-IsKnown (http r s d) =
    let seconds : Series = (codes "ingestkit_http_seconds", route r ∷ []) in
    let total : Series =
      (codes "ingestkit_http_total", route r ∷ normalized statuses (codes "other") s ∷ []) in
    (
      after_publishes total (
          member-append_right total latencies requests (
            member-with_labels (codes "ingestkit_http_total") (route r)
              (normalized statuses (codes "other") s) (or_other routes) (or_other statuses)
              (or_other_in routes r) (or_other_in statuses s))),
      (
        after_publishes seconds (
            member-append_left seconds latencies requests (
              member-with_label (codes "ingestkit_http_seconds") (route r) (or_other routes)
                (or_other_in routes r))),
        tt,
      ),
    )
calls-IsKnown (publish o d) = (
  from_publishes _
      (member-with_label (codes "ingestkit_publish_seconds") (outcome o) outcomes (outcome_in o)),
  tt,
)
calls-IsKnown (write r received d now) =
    All-append IsKnown (write_calls r d) (map (receipt now) received)
      (from_plains _ refl, (from_plains _ refl, (from_plains _ refl, (from_plains _ refl, tt))))
      (receipts-IsKnown now received)
calls-IsKnown retry = (from_plains _ refl, tt)
calls-IsKnown (quarantine o) = (
  from_quarantines _
      (member-with_label (codes "ingestkit_quarantine_total") (outcome o) outcomes (outcome_in o)),
  tt,
)
calls-IsKnown (publish_failure r) = (
  from_failures _ (
      member-with_label (codes "ingestkit_publish_failures_total")
        (normalized reasons (codes "broker_error") r) reasons (reason_in r)),
  tt,
)

-- Whatever routes, statuses, outcomes and reasons a run reports, every series that its observations
-- touch is one of 83, in which none stands twice.
pub all_calls-IsKnown :
    (os : List Observation)
    → All IsKnown (all_calls os) × ((length all_series ≡ 83) × (distinct all_series ≡ true))
unfolding all_series plains quarantines failures publishes latencies requests labels_eq bytes_eq
all_calls-IsKnown os = (known os, (refl, refl))
  where
    known : (os : List Observation) → All IsKnown (all_calls os)
    known [] = tt
    known (o ∷ os) = All-append IsKnown (calls o) (all_calls os) (calls-IsKnown o) (known os)
