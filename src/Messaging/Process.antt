-- ===== src/Messaging/Process.antt =====
-- internal/messaging/process.go: `persist` retries a batch within its window, and
-- `processPartition` stores, quarantines and commits the records of a partition.
pub mod Retry
pub mod Durable
pub mod Flushing
pub mod Outcome
pub mod Safety
pub mod Undisturbed
use ingestkit.Prelude.{
  ℕ, zero, suc, ◌+◌, ◌*◌, ◌≡◌, refl, Bool, true, false, ◌||◌, ◌++◌, Option, none, some, List, [],
  ◌∷◌, Bytes, Result, ok, err, leb, ltb, length, if◌then◌else◌,
}
use ingestkit.Event.{Envelope}
use ingestkit.Messaging.Records.{KafkaRecord}
use ingestkit.Messaging.World.{
  Kind, storage, quarantine, progress, Effect, wrote, committed, quarantined, notified,
  observed_write, observed_retry, Failure, context_done, retry_exhausted, commit_failed,
  quarantine_failed, out_of_fuel, World, Env, M, ◌>>=◌, ◌>>◌, pure, fail, emit, ask, clock, pass,
}

-- The part of `ReaderConfig` that the loop uses; durations are nanoseconds.
pub record Limits : Type 0 where
  pub batch_size : ℕ
  pub retry_window : ℕ
  pub backoff_min : ℕ
  pub backoff_max : ℕ

-- `backoff *= 2`, up to the maximum.
unfoldable pub next_backoff : ℕ → ℕ → ℕ
next_backoff backoff_max backoff =
    if ltb backoff backoff_max
    then if ltb backoff_max (backoff * 2) then backoff_max else backoff * 2
    else backoff

-- The end of a commit or a quarantine: go on, or return the error.
unfoldable pub unless_failed : Bool → Failure → M (Unit {0})
unless_failed true e = pure tt
unless_failed false e = fail e

unfoldable pub check_context : Env → M (Unit {0})
check_context env = do
  finished ← ask env.done
  unless_failed (if finished then false else true) context_done

module _ (env : Env) (limits : Limits) where
  -- One call of `WriteBatch`, reported; it takes its time whether it succeeds or not.
  pub write_batch : List Envelope → KafkaRecord → M Bool
  write_batch events source = do
    answer ← ask env.writes
    pass answer.1
    emit (wrote events answer.0)
    emit (notified storage source answer.0)
    pure answer.0

  -- The wait before the next attempt: true if the window ends first.
  pub wait : ℕ → ℕ → M Bool
  wait deadline backoff = do
    cut ← ask env.interrupted
    start ← clock
    if cut || ltb deadline (start + backoff) then pure true else do pass backoff; pure false

  -- A round of the loop of `persist`: `again` is the loop with the next backoff.
  pub after_write : List Envelope → ℕ → ℕ → M (Unit {0}) → Bool → M (Unit {0})
  after_write events deadline backoff again true = emit (observed_write events)
  after_write events deadline backoff again false = do
    check_context env
    emit observed_retry
    ended ← wait deadline backoff
    if ended then fail retry_exhausted else again

  pub attempts : ℕ → ℕ → List Envelope → KafkaRecord → ℕ → M (Unit {0})
  attempts zero deadline events source backoff = fail out_of_fuel
  attempts (suc fuel) deadline events source backoff = do
    check_context env
    done ← write_batch events source
    after_write events deadline backoff
        (attempts fuel deadline events source (next_backoff limits.backoff_max backoff)) done

  -- Each further round is at least a nanosecond later, so the fuel suffices.
  unfoldable pub persist : List Envelope → KafkaRecord → M (Unit {0})
  unfolding attempts after_write write_batch wait
  persist events source = do
    start ← clock
    attempts (suc (suc limits.retry_window)) (start + limits.retry_window) events source
        limits.backoff_min

  pub last : KafkaRecord → List KafkaRecord → KafkaRecord
  last r [] = r
  last r (s ∷ rs) = last s rs

  pub commit : KafkaRecord → List KafkaRecord → M (Unit {0})
  unfolding last
  commit r rs = do
    answer ← ask env.commits
    emit (committed (r ∷ rs) answer)
    emit (notified progress (last r rs) answer)
    unless_failed answer commit_failed

  -- `flush`: the caller's `valid` and `source` are empty after a success.
  unfoldable pub flush : List Envelope → List KafkaRecord → M (Unit {0})
  unfolding commit
  flush valid [] = pure tt
  flush valid (r ∷ rs) = do persist valid r; commit r rs

  pub quarantine_record : KafkaRecord → M (Unit {0})
  quarantine_record r = do
    answer ← ask env.quarantines
    emit (quarantined r answer)
    emit (notified quarantine r answer)
    unless_failed answer quarantine_failed

  module _ {E : Type 0} (decode : Bytes → Result E Envelope) where
    -- One record: the lists of valid events and their records with which the loop goes on.
    pub process_record :
        KafkaRecord
        → List Envelope
        → List KafkaRecord
        → Result E Envelope
        → M (List Envelope × List KafkaRecord)
    unfolding quarantine_record
    process_record r valid source (err e) = do
      flush valid source
      quarantine_record r
      commit r []
      pure ([], [])
    process_record r valid source (ok e) =
        if leb limits.batch_size (length (valid ++ e ∷ []))
        then (do flush (valid ++ e ∷ []) (source ++ r ∷ []); pure ([], []))
        else pure (valid ++ e ∷ [], source ++ r ∷ [])

    pub process_from : List Envelope → List KafkaRecord → List KafkaRecord → M (Unit {0})
    unfolding process_record
    process_from valid source [] = flush valid source
    process_from valid source (r ∷ rs) = do
      check_context env
      pending ← process_record r valid source (decode r.value)
      process_from pending.0 pending.1 rs

    -- The records of one partition. `decode` is `event.DecodeEnvelope`.
    unfoldable pub process_partition : List KafkaRecord → M (Unit {0})
    unfolding process_from
    process_partition records = process_from [] [] records
