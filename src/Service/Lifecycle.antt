-- ===== src/Service/Lifecycle.antt =====
-- internal/service/lifecycle.go: the supervision of attempts and the shutdown of a process.
pub mod Supervision
use ingestkit.Prelude.{
  ℕ, zero, suc, ◌+◌, Bool, true, false, ◌||◌, Option, none, some, List, [], ◌∷◌, ◌++◌, Bytes,
  bytes_eq, codes, ◌==◌, length, Result, ok, err, ◌>>=◌, ◌>>◌, require, if◌then◌else◌,
}

-- An error that a process ends with: that of a context, or one of the code it runs, by a number.
pub data ServiceError : Type 0 where
  cancelled deadline_exceeded : ServiceError
  failure : ℕ → ServiceError

-- A context seen from a loop: whether and how it is done at each moment. The moments are the
-- questions that the loop asks.
abbrev pub Context : Type 0
Context = ℕ → Option ServiceError

-- What ends the wait between two attempts.
pub data Wait : Type 0 where
  stopped cancelled_work elapsed : Wait

-- How a supervision has ended: the errors that are joined (none for nil), and the attempts made.
pub record Outcome : Type 0 where
  pub errors : List ServiceError
  pub attempts : ℕ

abbrev pub one : Option ServiceError → List ServiceError
one none = []
one (some e) = e ∷ []

-- `select` takes any case that is ready: `choose` is its choice where both contexts are done, and
-- the timer is ready at any time.
pub record Select : Type 0 where
  pub timer_first : Bool
  pub stop_first : Bool

abbrev pub select_wait : Option ServiceError → Option ServiceError → Select → Wait
select_wait stop work s = if s.timer_first then elapsed else elim stop [
  | none ↦ elim work [ none ↦ elapsed | some _ ↦ cancelled_work ]
  | some _ ↦ elim work [
    | none ↦ stopped
    | some _ ↦ if s.stop_first then stopped else cancelled_work
  ]
]

module _ (stop work : Context) (attempt : ℕ → Option ServiceError) (select : ℕ → Select) where
  -- The loop of `Supervise` from the moment `t`: a round asks for the two contexts, makes an
  -- attempt, asks again, and waits. `none`: it has not ended within the fuel.
  unfoldable pub supervise : ℕ → ℕ → ℕ → Option Outcome
  supervise zero t made = none
  supervise (suc fuel) t made =
      let next = supervise fuel (t + 6) (suc made) in
      elim (work t) [
        | some e ↦ some (record { errors = e ∷ []; attempts = made })
        | none ↦ elim (stop (t + 1)) [
          | some _ ↦ some (record { errors = []; attempts = made })
          | none ↦ elim (work (t + 3)) [
            | some e ↦
                some (record { errors = one (attempt (t + 2)) ++ e ∷ []; attempts = suc made })
            | none ↦ elim (stop (t + 4)) [
              | some _ ↦ some (record { errors = one (attempt (t + 2)); attempts = suc made })
              | none ↦ elim (select_wait (stop (t + 5)) (work (t + 5)) (select (t + 5))) [
                | stopped ↦ some (record { errors = one (attempt (t + 2)); attempts = suc made })
                | cancelled_work ↦
                    some (record { errors = one (work (t + 5)); attempts = suc made })
                | elapsed ↦ next
              ]
            ]
          ]
        ]
      ]

-- `Drain`: both functions run, whatever they return, then `close` is awaited for as long as the
-- context lasts. The errors of each are joined.
unfoldable pub drain :
    List ServiceError → List ServiceError → Option ServiceError → List ServiceError
drain stop_errors flush_errors late = (stop_errors ++ flush_errors) ++ one late

-- `Check`: the split of an address, the request and its answer are parameters.
pub data CheckError : Type 0 where
  bad_address bad_request no_answer not_ready : CheckError

unfoldable pub probe_host : Bytes → Bytes
probe_host host =
    if (length host == 0) || bytes_eq host (codes "0.0.0.0") then codes "127.0.0.1" else host

unfoldable pub check :
    (Bytes → Option (Bytes × Bytes))
    → (Bytes → Bytes → Bytes)
    → (Bytes → Result CheckError ℕ)
    → Bytes
    → Result CheckError (Unit {0})
unfolding probe_host
check split_host_port join_host_port get address = elim (split_host_port address) [
  | none ↦ err bad_address
  | some (host, port) ↦ do
    status ← get (codes "http://" ++ (join_host_port (probe_host host) port ++ codes "/ready"))
    require (status == 200) not_ready
]
