-- ===== src/Runenv/Demo/Run.antt =====
-- internal/runenv/demo.go: the demo on a project that has been started, and how it is left behind.
use ingestkit.Prelude.{
  ℕ, zero, suc, Bool, true, false, Option, none, some, List, [], ◌∷◌, ◌++◌, Bytes, codes, length,
  ◌==◌, ◌&&◌, Result, ok, err, if◌then◌else◌,
}
use ingestkit.Prelude.Assoc.{Assoc}
use ingestkit.Runenv.Shell.{
  Failure, system_failed, send_failed, reconciliation_failed, out_of_fuel, World, Os, M, ◌>>=◌,
  ◌>>◌, pure, fail, ask, or_fail, system_error,
}
use ingestkit.Runenv.Stack.{
  Stack, compose, stop, destroy, set_service_running, write_file, collect_evidence,
}
use ingestkit.Runenv.Demo.{reconcile_ids}

pub record DemoOptions : Type 0 where
  pub recovery : Bool
  pub cleanup : Bool

pub record DemoReport : Type 0 where
  pub accepted : List ℕ
  pub stored : List ℕ
  pub funnel : Assoc ℕ

-- The answers besides docker: the pool, the events of the example by their identifiers, the reply to
-- the batch (its status, and the identifiers of its body where it is read), the stored identifiers,
-- whether the wait is over, the counts of the types, and the text of the report.
pub record DemoMachine : Type 0 where
  pub pool : ℕ → Option Bytes
  pub events : ℕ → Result Bytes (List ℕ)
  pub reply : ℕ → Result Bytes (ℕ × Option (List ℕ))
  pub rows : ℕ → Option (List ℕ)
  pub over : ℕ → Bool
  pub counts : ℕ → Result Bytes (Assoc ℕ)
  pub report : ℕ → Bytes

unfoldable pub same_ids : List ℕ → List ℕ → Bool
same_ids [] [] = true
same_ids (a ∷ xs) (b ∷ ys) = (a == b) && same_ids xs ys
same_ids _ _ = false

abbrev pub answered {ℓ} : {A : Type ℓ} → Result Bytes A → Result Failure A
answered (ok a) = ok a
answered (err e) = err (system_failed e)

-- The checks of the acknowledgement of a batch of events.
unfoldable pub acknowledged : List ℕ → ℕ × Option (List ℕ) → Result Failure (List ℕ)
acknowledged ids (status, none) = err send_failed
acknowledged ids (status, some acked) =
    if (status == 202) && (length acked == length ids) && same_ids acked ids
    then ok acked
    else err send_failed

-- Whether a poll of the store gives what was accepted.
abbrev pub reconciled : List ℕ → Option (List ℕ) → Option (List ℕ)
reconciled ids none = none
reconciled ids (some actual) = elim (reconcile_ids ids actual) [ ok _ ↦ some actual | err e ↦ none ]

abbrev describe_group : List Bytes
describe_group =
    codes "exec"
    ∷ codes "-T"
    ∷ codes "redpanda"
    ∷ codes "rpk"
    ∷ codes "group"
    ∷ codes "describe"
    ∷ codes "ingestkit-consumer"
    ∷ codes "-X"
    ∷ codes "brokers=redpanda:9092"
    ∷ []

module _ (os : Os) (d : DemoMachine) where
  unfoldable pub send_inputs : List ℕ → M (List ℕ)
  unfolding acknowledged
  send_inputs ids = do
    answer ← ask d.reply
    reply ← or_fail (answered answer)
    or_fail (acknowledged ids reply)

  -- What a poll says of the loop: it ends with the stored identifiers, or waits for the next.
  abbrev pub settled : M (List ℕ) → Option (List ℕ) → M (List ℕ)
  settled next (some actual) = pure actual
  settled next none = do over ← ask d.over; if over then fail reconciliation_failed else next

  unfoldable pub await_stored : ℕ → List ℕ → M (List ℕ)
  await_stored zero ids = fail out_of_fuel
  await_stored (suc fuel) ids =
      let next = await_stored fuel ids in do rows ← ask d.rows; settled next (reconciled ids rows)

  -- Until the events are known; then until the database is stopped, if it is to be.
  unfoldable pub set_up : M (List ℕ)
  set_up = do
    refused ← ask d.pool
    or_fail (system_error refused)
    events ← ask d.events
    or_fail (answered events)

  unfoldable pub set_database : Stack → Bool → Bool → M (Unit {0})
  set_database s running false = pure tt
  set_database s running true = set_service_running os s (codes "postgres") running

  -- The group of the consumer is only shown, whether docker can tell it or not.
  unfoldable pub show_lag : Stack → Bool → M (Unit {0})
  show_lag s false w = pure tt w
  show_lag s true w = let (out, w1) = compose os s describe_group w in pure tt w1

  -- What is left once the database runs.
  unfoldable pub reconcile : ℕ → List ℕ → M DemoReport
  unfolding await_stored
  reconcile fuel ids = do
    stored ← await_stored fuel ids
    counts ← ask d.counts
    funnel ← or_fail (answered counts)
    pure (record { accepted = ids; stored = stored; funnel = funnel })

  -- The parts of the body, each with what is done where it returns; the flag tells whether the
  -- database has been stopped, and not started again.
  abbrev pub Ended : Type 0
  Ended = (Result Failure DemoReport × World) × Bool

  abbrev pub then_do {ℓ} :
      {A : Type ℓ} → Result Failure A × World → Bool → (A → World → Ended) → Ended
  then_do (err f, w) stopped k = ((err f, w), stopped)
  then_do (ok a, w) stopped k = k a w

  unfoldable pub body : ℕ → Stack → DemoOptions → World → Ended
  unfolding set_up set_database send_inputs show_lag reconcile
  body fuel s o w = then_do (set_up w) false λ events w1.
      then_do (set_database s false o.recovery w1) false λ _ w2.
        then_do (send_inputs events w2) o.recovery λ ids w3.
          then_do ((show_lag s o.recovery >> set_database s true o.recovery) w3) o.recovery
            λ _ w4. (reconcile fuel ids w4, false)

  abbrev pub errors_of {ℓ} : {A : Type ℓ} → Result Failure A → List Failure
  errors_of (ok a) = []
  errors_of (err f) = f ∷ []

  unfoldable pub write_report : Stack → M (Unit {0})
  write_report s = do
    text ← ask d.report
    write_file os (os.join s.directory (codes "demo.json")) text

  -- The deferred function: the database is started again if it is stopped, evidence is collected, the
  -- project is stopped or destroyed, and a report is written; all errors are joined.
  unfoldable pub leave : Stack → DemoOptions → Ended → List Failure × World
  unfolding set_database write_report
  leave s o ((r, w), stopped) =
      let (restarted, w1) = set_database s true stopped w in
      let (evidence, w2) = collect_evidence os s s.directory w1 in
      let (left, w3) = (if o.cleanup then destroy os s else stop os s) w2 in
      let errors = errors_of r ++ (errors_of restarted ++ (errors_of evidence ++ errors_of left)) in
      let (written, w4) = write_report s w3 in (errors ++ errors_of written, w4)

  -- `RunDemo`, once the project is started: the errors that it returns.
  unfoldable pub run_demo : ℕ → Stack → DemoOptions → World → List Failure × World
  unfolding leave
  run_demo fuel s o w = leave s o (body fuel s o w)
