-- ===== src/Telemetry/Registry/Registered.antt =====
-- Every observation is a call that the metrics library accepts.
use ingestkit.Prelude.{
  arith, ℕ, ℤ, pos, leb_ℤ, codes, ◌≡◌, ◌≤◌, refl, Bool, true, List, [], ◌∷◌, map, length, Bytes,
  bytes_eq, All, All-append, Result, ok,
}
use ingestkit.Event.{Envelope}
use ingestkit.Persistence.{Statement, WriteResult, write_batch}
use ingestkit.Persistence.Binding.{write_batch-duplicates}
use ingestkit.Telemetry.Metrics.{
  Call, add, number, plain, receipt, observe_http, observe_publish, observe_write, observe_retry,
  observe_quarantine, observe_publish_failure,
}
use ingestkit.Telemetry.Metrics.Bounded.{
  Observation, http, publish, write, retry, quarantine, publish_failure, calls, all_calls,
}
use ingestkit.Telemetry.Registry.{new_metrics, names, accepted_by, distinct_names}

abbrev pub IsAccepted : Call → Type 0
IsAccepted c = accepted_by new_metrics c ≡ true

receipts-IsAccepted : (now : ℕ) (received : List ℕ) → All IsAccepted (map (receipt now) received)
unfolding accepted_by new_metrics bytes_eq
receipts-IsAccepted now [] = tt
receipts-IsAccepted now (at ∷ received) = (refl, receipts-IsAccepted now received)

-- What `ObserveWrite` is told: a result of `WriteBatch`, over a driver that reports no more rows
-- than it was given.
pub record FromStore (r : WriteResult) : Type 0 where
  pub uuid_string : ℕ → Bytes
  pub exec : Statement → Result Bool ℕ
  pub events : List Envelope
  pub in_bounds : (s : Statement) (n : ℕ) → exec s ≡ ok n → n ≤ length s.values
  pub written : write_batch uuid_string exec events ≡ ok r

abbrev pub IsGiven : Observation → Type 0
IsGiven (write r received d now) = FromStore r
IsGiven _ = Unit

stored-IsAccepted :
    (n : ℕ) → IsAccepted (add (plain (codes "ingestkit_stored_total")) (number (pos n)))
unfolding accepted_by new_metrics bytes_eq
stored-IsAccepted n = ground arith

duplicates-IsAccepted :
    (z : ℤ)
    → leb_ℤ (pos 0) z ≡ true
    → IsAccepted (add (plain (codes "ingestkit_duplicates_total")) (number z))
unfolding accepted_by new_metrics bytes_eq
duplicates-IsAccepted z h = ground (arith, h)

calls-IsAccepted : (o : Observation) → IsGiven o → All IsAccepted (calls o)
unfolding accepted_by new_metrics bytes_eq observe_http observe_publish observe_write observe_retry
    observe_quarantine observe_publish_failure
calls-IsAccepted (http r s d) g = (refl, (refl, tt))
calls-IsAccepted (publish o d) g = (refl, tt)
calls-IsAccepted (write r received d now) g =
    let up = write_batch-duplicates g.uuid_string g.exec g.events r g.in_bounds g.written in
    All-append IsAccepted (observe_write r [] d 0) (map (receipt now) received)
      (stored-IsAccepted r.inserted, (duplicates-IsAccepted r.duplicates up, (refl, (refl, tt))))
      (receipts-IsAccepted now received)
calls-IsAccepted retry g = (refl, tt)
calls-IsAccepted (quarantine o) g = (refl, tt)
calls-IsAccepted (publish_failure r) g = (refl, tt)

-- For observations of which those of a write are told a result of `WriteBatch` over a driver that
-- reports no more rows than it was given: each of their calls is for a metric that `New` has
-- registered, of its kind, with as many values as it has labels, and lets no counter go down; and no
-- two of the names that `New` registers, those of the runtime measurements included, are the same.
pub all_calls-IsAccepted :
    (os : List Observation)
    → All IsGiven os
    → All IsAccepted (all_calls os) × (distinct_names names ≡ true)
unfolding names bytes_eq
all_calls-IsAccepted os g = (accepted os g, refl)
  where
    accepted : (os : List Observation) → All IsGiven os → All IsAccepted (all_calls os)
    accepted [] g = tt
    accepted (o ∷ os) g =
        All-append IsAccepted (calls o) (all_calls os) (calls-IsAccepted o g.0) (accepted os g.1)
