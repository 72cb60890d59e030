-- ===== src/Commands/Server.antt =====
-- cmd/api/main.go: the life of the API process, from its configuration to its end.
pub mod Resources
use ingestkit.Prelude.{
  Bool, true, false, Option, none, some, is_some, List, [], ◌∷◌, ◌++◌, Result, ok, err,
  if◌then◌else◌,
}
use ingestkit.Service.Lifecycle.{ServiceError, one, drain}

pub data Effect : Type 0 where
  made_publisher closed_publisher made_app cleaned_app listened : Effect
  shut_down_app closed_listener flushed_publisher : Effect

-- How the process comes to its end: the listener fails, or it is asked to stop.
pub data End : Type 0 where
  failed : (closed : Bool) (e : Option ServiceError) → End
  asked : (closed : Bool) (shutdown flush late : Option ServiceError) → End

-- What the steps of `run` are answered. `closed` tells whether an error is net.ErrClosed.
pub record Answers : Type 0 where
  pub config : Option ServiceError
  pub publisher : Option ServiceError
  pub app : Option ServiceError
  pub listen : Option ServiceError
  pub end : End

abbrev unless_closed : Bool → Option ServiceError → Option ServiceError
unless_closed closed e = if closed then none else e

-- From where the listener is open; `clean` is deferred, so it is called last.
unfoldable pub serve : End → List ServiceError × List Effect
serve (failed closed e) = (one (unless_closed closed e), closed_publisher ∷ cleaned_app ∷ [])
serve (asked closed shutdown flush late) = (
  drain (one (unless_closed closed shutdown)) (one flush) late,
  shut_down_app ∷ closed_listener ∷ flushed_publisher ∷ closed_publisher ∷ cleaned_app ∷ [],
)

-- `run`: the errors that it returns and what it does, oldest first.
unfoldable pub run : Answers → List ServiceError × List Effect
unfolding serve
run a = elim a.config [
  | some e ↦ (e ∷ [], [])
  | none ↦ elim a.publisher [
    | some e ↦ (e ∷ [], [])
    | none ↦ elim a.app [
      | some e ↦ (e ∷ [], made_publisher ∷ closed_publisher ∷ [])
      | none ↦ elim a.listen [
        | some e ↦ (e ∷ [], made_publisher ∷ made_app ∷ closed_publisher ∷ cleaned_app ∷ [])
        | none ↦
            let (errors, effects) = serve a.end in
            (errors, (made_publisher ∷ made_app ∷ listened ∷ []) ++ effects)
      ]
    ]
  ]
]
