-- ===== src/Messaging/Reader.antt =====
-- internal/messaging/reader.go: the configuration of a reader, a fetch of several partitions, and
-- the polling loop.
pub mod Config
pub mod Fetching
pub mod Stopping
use ingestkit.Prelude.{
  ℕ, suc, ◌≡◌, Bool, true, false, not, ◌&&◌, List, [], ◌∷◌, Bytes, Result, ok, err, if◌then◌else◌,
}
use ingestkit.Event.{Envelope}
use ingestkit.Messaging.Records.{KafkaRecord}
use ingestkit.Messaging.World.{
  Effect, allowed_rebalance, Failure, context_done, fetch_failed, World, Env, M, ◌>>=◌, ◌>>◌, pure,
  fail, emit, ask,
}
use ingestkit.Messaging.Process.{Limits, check_context, process_partition}

-- The error of a fetch: `context.Canceled` or another.
pub data FetchError : Type 0 where
  canceled other : FetchError

pub record Fetches : Type 0 where
  pub partitions : List (List KafkaRecord)
  pub errors : List FetchError

-- A deferred call: it is made whether the body returns or fails.
unfoldable pub finally : Effect → M (Unit {0}) → M (Unit {0})
finally e m w = let (r, w') = m w in (r, record w' { trace = e ∷ w'.trace })

module _ (env : Env) (limits : Limits) {E : Type 0} (decode : Bytes → Result E Envelope) where
  -- The first error ends the walk over the partitions; one without records is passed over.
  pub process_partitions : List (List KafkaRecord) → M (Unit {0})
  process_partitions [] = pure tt
  process_partitions ([] ∷ ps) = process_partitions ps
  process_partitions ((r ∷ rs) ∷ ps) = do
    process_partition env limits decode (r ∷ rs)
    process_partitions ps

  -- A cancelled poll is no error where the reader is stopping and the work is not cancelled.
  pub fetch_errors : Bool → List FetchError → M (Unit {0})
  fetch_errors ignore_cancel [] = pure tt
  fetch_errors ignore_cancel (other ∷ es) = fail fetch_failed
  fetch_errors false (canceled ∷ es) = fail fetch_failed
  fetch_errors true (canceled ∷ es) = do
    finished ← ask env.done
    if finished then fail fetch_failed else fetch_errors true es

  unfoldable pub process_fetched : Fetches → Bool → M (Unit {0})
  unfolding process_partitions fetch_errors finally
  process_fetched f ignore_cancel =
      finally allowed_rebalance
        (do process_partitions f.partitions; fetch_errors ignore_cancel f.errors; check_context env)

  -- `Run` over the fetches that the polls of its rounds return; `stopping` answers whether
  -- `StopPolling` was called. The loop has not ended where the list is used up.
  unfoldable pub run : (ℕ → Bool) → List Fetches → M (Unit {0})
  run stopping [] = check_context env
  run stopping (f ∷ fs) = do
    check_context env
    stop ← ask stopping
    if stop then pure tt else do
      late ← ask stopping
      process_fetched f late
      end ← ask stopping
      if end then pure tt else run stopping fs
