-- ===== src/Commands/Consumer/Running.antt =====
-- cmd/consumer/main.go: the process from its configuration to its end, and the exit status of both
-- services.
use ingestkit.Prelude.{
  ℕ, zero, suc, ◌+◌, ◌≡◌, refl, inl, inr, Bool, true, false, Option, none, some, is_some,
  Option-cases, List, [], ◌∷◌, ◌++◌, Bytes, length, ◌==◌, Result, ok, err, if◌then◌else◌,
}
use ingestkit.Service.Health.{new_processing_health}
use ingestkit.Service.Lifecycle.{ServiceError}
use ingestkit.Commands.Consumer.{
  Effect, opened_pool, closed_pool, cancelled_worker, shut_down_server, is_check, drain_consumer,
  Ending, finish,
}

-- What the steps of `run` are answered before it serves, and at its end.
pub record Steps : Type 0 where
  pub config : Option ServiceError
  pub pool : Option ServiceError
  pub listen : Option ServiceError
  pub ending : Ending

-- `run`, without what the worker does: the errors that it returns, and its effects, oldest first.
unfoldable pub run : Steps → List ServiceError × List Effect
run s = elim s.config [
  | some e ↦ (e ∷ [], [])
  | none ↦ elim s.pool [
    | some e ↦ (e ∷ [], [])
    | none ↦ elim s.listen [
      | some e ↦ (e ∷ [], opened_pool ∷ closed_pool ∷ [])
      | none ↦
          let (health, (errors, effects)) = finish s.ending new_processing_health in
          (errors, opened_pool ∷ effects)
    ]
  ]
]

-- The exit status of `main`: a health check with its answer, or `run` with its errors.
unfoldable pub exit_status : List Bytes → Option ServiceError → List ServiceError → ℕ
exit_status args check errors =
    if is_check args then if is_some check then 1 else 0 else if length errors == 0 then 0 else 1

-- How many pools are open after what is done; `none` if one is closed that is not open.
abbrev pools : List Effect → ℕ → Option ℕ
pools [] n = some n
pools (opened_pool ∷ es) n = pools es (n + 1)
pools (closed_pool ∷ es) zero = none
pools (closed_pool ∷ es) (suc n) = pools es n
pools (_ ∷ es) n = pools es n

pools-drain :
    (failed has_reader : Bool) (w : Result ServiceError (Option ServiceError))
    → pools
        ((if failed then cancelled_worker ∷ [] else [])
          ++ ((drain_consumer has_reader w).1 ++ shut_down_server ∷ closed_pool ∷ []))
        1
      ≡ some 0
unfolding drain_consumer
pools-drain true true (ok r) = refl
pools-drain true true (err e) = refl
pools-drain true false (ok r) = refl
pools-drain true false (err e) = refl
pools-drain false true (ok r) = refl
pools-drain false true (err e) = refl
pools-drain false false (ok r) = refl
pools-drain false false (err e) = refl

pools-finish : (e : Ending) → pools (finish e new_processing_health).1.1 1 ≡ some 0
unfolding finish
pools-finish e = pools-drain (is_some e.serve) e.has_reader e.worker

-- Whatever the steps of `run` are answered, the pool that it opens is closed, once.
pub pools-run : (s : Steps) → pools (run s).1 0 ≡ some 0
unfolding run
pools-run s = elim (Option-cases s.config) [
  | inr (e, c) ↦ rw c refl
  | inl c ↦ rw c (elim (Option-cases s.pool) [
    | inr (e, p) ↦ rw p refl
    | inl p ↦ rw p (elim (Option-cases s.listen) [
      | inr (e, l) ↦ rw l refl
      | inl l ↦ rw l (pools-finish s.ending)
    ])
  ])
]
