-- ===== src/Messaging/World.antt =====
-- What a reader does to the world, as a monad of state and failure. What other systems answer is
-- taken from an environment that may depend on the moment, so every behaviour is possible.
pub mod Triples
use ingestkit.Prelude.{
  ℕ, zero, suc, ◌+◌, ◌≡◌, refl, Bool, true, false, Option, none, some, List, [], ◌∷◌, Bytes, Result,
  ok, err, if◌then◌else◌,
}
use ingestkit.Prelude.Action.{Action}
unfoldable pub use ingestkit.Prelude.Action.{◌>>=◌, pure, fail}
pub use ingestkit.Prelude.Action.{◌>>◌}
use ingestkit.Event.{Envelope}
use ingestkit.Messaging.Records.{KafkaRecord}

-- The kinds of `Operation` that a reader reports.
pub data Kind : Type 0 where
  storage quarantine progress : Kind

-- The calls of other systems, each with its outcome (true: no error).
pub data Effect : Type 0 where
  wrote : List Envelope → Bool → Effect
  committed : List KafkaRecord → Bool → Effect
  quarantined : KafkaRecord → Bool → Effect
  notified : Kind → KafkaRecord → Bool → Effect
  observed_write : List Envelope → Effect
  observed_retry : Effect
  allowed_rebalance : Effect

-- The errors that the loops of a reader return; `out_of_fuel` belongs to the model only.
pub data Failure : Type 0 where
  context_done retry_exhausted commit_failed quarantine_failed fetch_failed out_of_fuel : Failure

-- `tick` counts the questions asked, `now` is the time in nanoseconds, the trace has the newest
-- effect first.
pub record World : Type 0 where
  pub tick : ℕ
  pub now : ℕ
  pub trace : List Effect

-- The answers at each tick: is the caller's context done, does a write succeed and how long does
-- it take, is a wait cut short (or tied with the end of its window), do a commit and a quarantine
-- succeed.
pub record Env : Type 0 where
  pub done : ℕ → Bool
  pub writes : ℕ → Bool × ℕ
  pub interrupted : ℕ → Bool
  pub commits : ℕ → Bool
  pub quarantines : ℕ → Bool

abbrev pub M : Type 0 → Type 0
M A = Action World Failure A

unfoldable pub emit : Effect → M (Unit {0})
emit e w = (ok tt, record w { trace = e ∷ w.trace })

unfoldable pub ask : {A : Type 0} → (ℕ → A) → M A
ask f w = (ok (f w.tick), record w { tick = suc w.tick })

unfoldable pub clock : M ℕ
clock w = (ok w.now, w)

unfoldable pub pass : ℕ → M (Unit {0})
pass d w = (ok tt, record w { now = w.now + d })
