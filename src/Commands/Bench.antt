-- ===== src/Commands/Bench.antt =====
-- cmd/bench/main.go: what the flags ask for, and a measured run with its cleanup. The parsed flags
-- are an input, and so are the answers of the packages that the command calls.
pub mod Completed
pub mod Planned
use ingestkit.Prelude.{
  ℕ, Bool, true, false, not, ◌&&◌, ◌||◌, Option, none, some, is_some, List, [], ◌∷◌, ◌++◌, Bytes,
  bytes_eq, codes, ℤ, pos, leb_ℤ, length, ◌==◌, Result, ok, err, ◌>>=◌, ◌>>◌, require,
  if◌then◌else◌,
}

-- The flags that decide what is run; the others are passed on. `visited` are the names of those
-- that are set, in their order, `rest` are the arguments behind the flags.
pub record Flags : Type 0 where
  pub mode : Bytes
  pub out : Bytes
  pub suite : Bytes
  pub smoke : Bool
  pub resume : Bool
  pub active_cap : ℤ
  pub idle_cap : ℤ
  pub visited : List Bytes
  pub rest : List Bytes

-- The last one is an error of a package that the command calls, by a number.
pub data BenchError : Type 0 where
  unparsed unexpected_arguments unknown_mode resume_without_out suite_outside_study : BenchError
  study_flags_outside_study negative_caps calibration_without_out dirty_source : BenchError
  not_for_study : Bytes → BenchError
  reported : ℕ → BenchError

pub data Mode : Type 0 where
  database pipeline study calibrate : Mode

unfoldable pub mode_of : Bytes → Result BenchError Mode
mode_of s =
    if bytes_eq s (codes "database")
    then ok database
    else if bytes_eq s (codes "pipeline")
    then ok pipeline
    else if bytes_eq s (codes "study")
    then ok study
    else if bytes_eq s (codes "calibrate")
    then ok calibrate
    else err unknown_mode

unfoldable pub is_one_of : List Bytes → Bytes → Bool
is_one_of [] s = false
is_one_of (t ∷ ts) s = bytes_eq s t || is_one_of ts s

abbrev pub study_flags : List Bytes
study_flags =
    codes "mode" ∷ codes "smoke" ∷ codes "resume" ∷ codes "out" ∷ codes "seed" ∷ codes "suite" ∷ []

-- The last flag that a study does not take.
unfoldable pub unsupported : Option Bytes → List Bytes → Option Bytes
unfolding is_one_of
unsupported found [] = found
unsupported found (name ∷ names) =
    unsupported (if is_one_of study_flags name then found else some name) names

-- What is run: a study, a calibration, or a measured run of one of the two other modes.
pub data Plan : Type 0 where
  run_study : (suite out : Bytes) (smoke resume : Bool) → Plan
  run_calibration : (out : Bytes) → Plan
  run_measured : (is_pipeline : Bool) → Plan

abbrev pub plan_study : Flags → Result BenchError Plan
plan_study f = elim (unsupported none f.visited) [
  | some name ↦ err (not_for_study name)
  | none ↦ do
    require (not (f.resume && (length f.out == 0))) resume_without_out
    ok (run_study f.suite f.out f.smoke f.resume)
]

-- The checks of all modes but the study.
abbrev pub check_single : Flags → Result BenchError (Unit {0})
check_single f = do
  require (not (is_one_of f.visited (codes "suite"))) suite_outside_study
  require (not (f.smoke || f.resume)) study_flags_outside_study
  require (leb_ℤ (pos 0) f.active_cap && leb_ℤ (pos 0) f.idle_cap) negative_caps

-- `ValidatePipelineWorkload` of the flags is the parameter `workload`.
module _ (workload : Option ℕ) where
  abbrev pub check_workload : Result BenchError (Unit {0})
  check_workload = elim workload [ none ↦ ok tt | some e ↦ err (reported e) ]

  unfoldable pub plan_mode : Mode → Flags → Result BenchError Plan
  plan_mode study f = plan_study f
  plan_mode database f = do check_single f; ok (run_measured false)
  plan_mode pipeline f = do check_single f; check_workload; ok (run_measured true)
  plan_mode calibrate f = do
    check_single f
    check_workload
    require (not (length f.out == 0)) calibration_without_out
    ok (run_calibration f.out)

  -- `runArgs` up to the first call that does something.
  unfoldable pub plan : Option Flags → Result BenchError Plan
  unfolding plan_mode mode_of
  plan none = err unparsed
  plan (some f) = do
    require (length f.rest == 0) unexpected_arguments
    mode ← mode_of f.mode
    plan_mode mode f

-- What is opened and closed, and the calls that write or measure something. A call of `Destroy` has
-- or has not destroyed the project.
pub data Effect : Type 0 where
  tore_down : (done : Bool) → Effect
  started collected opened_pool closed_pool captured : Effect
  sampling stopped_sampling made_client closed_client measured : Effect
  wrote : (file : Bytes) → Effect
  wrote_status : (completed resources_destroyed : Bool) → Effect

-- What the steps of a measured run are answered; `dirty` is of the captured manifest.
pub record Answers : Type 0 where
  pub start : Option BenchError
  pub pool : Option BenchError
  pub capture : Option BenchError
  pub dirty : Bool
  pub manifest : Option BenchError
  pub client : Option BenchError
  pub measure : Option BenchError
  pub report : Option BenchError
  pub resources : Option BenchError
  pub collect : Option BenchError
  pub teardown : Option BenchError
  pub status : Option BenchError

-- What a step returns (the joined errors) and does, oldest first.
abbrev pub Ran : Type 0
Ran = List BenchError × List Effect

abbrev pub join : Option BenchError → List BenchError
join none = []
join (some e) = e ∷ []

-- A call, and what follows if it succeeds.
abbrev pub after : Option BenchError → Effect → Ran → Ran
after (some e) f next = (e ∷ [], f ∷ [])
after none f next = (next.0, f ∷ next.1)

-- `WriteReport` behind a measurement.
unfoldable pub report : Answers → Ran
report a = after a.report (wrote (codes "report")) ([], [])

unfoldable pub measure : Answers → Bool → Ran
unfolding report
measure a false = after a.measure measured (report a)
measure a true = elim a.client [
  | some e ↦ (e ∷ [], [])
  | none ↦ elim a.measure [
    | some e ↦
        (e ∷ [], made_client ∷ measured ∷ wrote (codes "failed-pipeline.json") ∷ closed_client ∷ [])
    | none ↦
        let (errors, effects) = report a in
        (errors, made_client ∷ measured ∷ (effects ++ closed_client ∷ []))
  ]
]

-- With the samples of the resources, which are written last.
unfoldable pub sampled : Answers → Bool → Ran
unfolding measure
sampled a is_pipeline =
    let (errors, effects) = measure a is_pipeline in
    (
      errors ++ join a.resources,
      sampling ∷ (effects ++ stopped_sampling ∷ wrote (codes "resources.json") ∷ []),
    )

unfoldable pub with_pool : Answers → Bool → Ran
unfolding sampled
with_pool a is_pipeline = elim a.pool [
  | some e ↦ (e ∷ [], [])
  | none ↦
      let (errors, effects) = after a.capture captured (
        after a.manifest (wrote (codes "manifest.json"))
          (if a.dirty then (dirty_source ∷ [], []) else sampled a is_pipeline)) in
      (errors, opened_pool ∷ (effects ++ closed_pool ∷ []))
]

-- The run from `runenv.Start` on, with its deferred cleanup.
unfoldable pub run_plan : Answers → Bool → Ran
unfolding with_pool
run_plan a is_pipeline = elim a.start [
  | some e ↦ (e ∷ [], [])
  | none ↦
      let (errors, effects) = with_pool a is_pipeline in
      let result = errors ++ (join a.collect ++ join a.teardown) in
      (
        result ++ join a.status,
        started
            ∷ (effects
                ++ collected
                  ∷ tore_down (not (is_some a.teardown))
                  ∷ wrote_status (length result == 0) (not (is_some a.teardown))
                  ∷ []),
      )
]

-- `writeCalibrationResult`: the status of the report, and the errors that are joined.
unfoldable pub write_calibration_result :
    Bytes → Option BenchError → Option BenchError → Bytes × List BenchError
write_calibration_result status run written =
    ((if is_some run then codes "incomplete" else status), join run ++ join written)
