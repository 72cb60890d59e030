-- ===== src/Commands/Consumer.antt =====
-- cmd/consumer/main.go: readiness, the attempts of the worker, and the shutdown of the process.
pub mod Readiness
pub mod Running
use ingestkit.Prelude.{
  Bool, true, false, not, ◌&&◌, ◌||◌, Option, none, some, is_some, List, [], ◌∷◌, ◌++◌, Bytes,
  codes, length, ◌==◌, bytes_eq, ℕ, Result, ok, err, if◌then◌else◌,
}
use ingestkit.Service.Health.{ProcessingHealth, ready, observe}
use ingestkit.Service.Lifecycle.{ServiceError, Context, Select, Outcome, supervise, one, drain}

-- What the goroutines of the process do to what they share.
pub data Effect : Type 0 where
  opened_pool closed_pool : Effect
  reported : Option ServiceError → Effect
  opened_reader stored_reader ran_reader cleared_reader closed_reader : Effect
  stopped_polling cancelled_worker shut_down_server : Effect

-- The address that a health check of this process asks: that of the variable, if it is set.
unfoldable pub check_address : Bytes → Bytes → Bytes
check_address variable default = if length variable == 0 then default else variable

-- Whether the command line asks for a health check; the name of the program comes first.
unfoldable pub is_check : List Bytes → Bool
is_check (program ∷ command ∷ []) = bytes_eq command (codes "check")
is_check _ = false

-- `readiness`: the answers of the store and of the current reader, if there is one.
unfoldable pub readiness : ProcessingHealth → Option ServiceError → Option (Option ServiceError) → ℕ
readiness health store reader =
    if not (ready health)
      || is_some store
      || (elim reader [ none ↦ true | some answer ↦ is_some answer ])
    then 503
    else 200

-- What an attempt of the worker is answered: by the ping of the store, by the context of the
-- process before and after the reader is made, by `NewReader`, and by `Run`.
pub record Answers : Type 0 where
  pub ping : Option ServiceError
  pub stopped_before : Bool
  pub reader : Option ServiceError
  pub stopped_after : Bool
  pub run : Option ServiceError

-- One attempt of the worker: what it returns, and what it does, oldest first. The reader is cleared
-- before it is closed.
unfoldable pub attempt : Answers → Option ServiceError × List Effect
attempt a = elim a.ping [
  | some e ↦ (some e, reported (some e) ∷ [])
  | none ↦ if a.stopped_before then (none, reported none ∷ []) else elim a.reader [
    | some e ↦ (some e, reported none ∷ reported (some e) ∷ [])
    | none ↦ (
      a.run,
      (reported none ∷ opened_reader ∷ stored_reader ∷ [])
          ++ ((if a.stopped_after then stopped_polling ∷ [] else [])
              ++ ran_reader ∷ cleared_reader ∷ closed_reader ∷ []),
    )
  ]
]

-- The worker: attempts under supervision, answered by the moment at which they begin.
unfoldable pub worker : Context → Context → (ℕ → Answers) → (ℕ → Select) → ℕ → Option Outcome
worker stop work answers select fuel =
    supervise stop work (λ t. (attempt (answers t)).0) select fuel 0 0

-- How `drainConsumer` finds the worker: it is done before the time for the shutdown is over, or not.
unfoldable pub drain_consumer :
    Bool → Result ServiceError (Option ServiceError) → Option ServiceError × List Effect
drain_consumer has_reader answer =
    let stopping : List Effect = if has_reader then stopped_polling ∷ [] else [] in
    elim answer [
      | ok result ↦ (result, stopping)
      | err late ↦ (some late, stopping ++ cancelled_worker ∷ [])
    ]

-- What the end of `run` is answered: whether the server has failed, whether there is a reader, how
-- the worker and the server stop, and whether the pool is closed in time.
pub record Ending : Type 0 where
  pub serve : Option ServiceError
  pub has_reader : Bool
  pub worker : Result ServiceError (Option ServiceError)
  pub server : Option ServiceError
  pub close : Option ServiceError

-- The end of `run`, from where the process is asked to stop or the server fails: the health of the
-- process, the errors that are joined, and what is done.
unfoldable pub finish :
    Ending → ProcessingHealth → ProcessingHealth × (List ServiceError × List Effect)
unfolding drain_consumer drain
finish e health =
    let (drained, effects) = drain_consumer e.has_reader e.worker in
    let failed : List Effect = if is_some e.serve then cancelled_worker ∷ [] else [] in
    (
      observe health (codes "shutdown") true,
      (
        one e.serve ++ drain (one drained ++ one e.server) [] e.close,
        failed ++ (effects ++ shut_down_server ∷ closed_pool ∷ []),
      ),
    )
