-- ===== src/Commands/Bench/Completed.antt =====
-- What a measured run has open, and when it reports no error.
use ingestkit.Prelude.{
  if◌then◌else◌, ◌≡◌, ◌↔◌, Bool, true, false, not, ◌&&◌, ◌||◌, Option, none, some, is_some, List,
  [], ◌∷◌, ◌++◌, arith,
}
use ingestkit.Commands.Bench.{
  BenchError, Effect, started, collected, tore_down, opened_pool, closed_pool, captured, sampling,
  stopped_sampling, made_client, closed_client, measured, wrote, wrote_status, Answers, join,
  report, measure, sampled, with_pool, run_plan,
}

-- What is there: the project of the run, whether its evidence is collected and `Destroy` has been
-- called, the pool, the sampling and the client.
pub record Open : Type 0 where
  pub project : Bool
  pub gathered : Bool
  pub torn_down : Bool
  pub pool : Bool
  pub samples : Bool
  pub client : Bool

abbrev only_if : Bool → Open → Option Open
only_if true o = some o
only_if false o = none

abbrev same : Bool → Bool → Bool
same true b = b
same false b = not b

-- A call on what is there, in a run that measures a pipeline or the database; `none` if something is
-- used that is not open, opened twice, or closed under what uses it, if a project is destroyed a
-- second time, or without its evidence, or if the status says something else of it than is true.
abbrev step : Bool → Effect → Open → Option Open
step p started o = only_if (not o.project && not o.torn_down) (record o { project = true })
step p collected o = only_if (o.project && not o.gathered) (record o { gathered = true })
step p (tore_down done) o =
    only_if (o.project && o.gathered && not (o.torn_down || o.pool))
      (record o { project = not done; torn_down = true })
step p opened_pool o = only_if (o.project && not (o.torn_down || o.pool)) (record o { pool = true })
step p closed_pool o = only_if (o.pool && not (o.samples || o.client)) (record o { pool = false })
step p captured o = only_if o.pool o
step p sampling o = only_if (o.pool && not o.samples) (record o { samples = true })
step p stopped_sampling o = only_if (o.samples && not o.client) (record o { samples = false })
step p made_client o = only_if (not o.client) (record o { client = true })
step p closed_client o = only_if o.client (record o { client = false })
step p measured o = only_if (o.samples && same p o.client) o
step p (wrote file) o = only_if (o.project && not o.torn_down) o
step p (wrote_status completed resources_destroyed) o =
    only_if (o.torn_down && same resources_destroyed (not o.project)) o

abbrev pub steps : Bool → List Effect → Open → Option Open
steps p [] o = some o
steps p (e ∷ es) o = elim (step p e o) [ none ↦ none | some q ↦ steps p es q ]

abbrev pub nothing_open : Open
nothing_open = record {
  project = false;
  gathered = false;
  torn_down = false;
  pool = false;
  samples = false;
  client = false;
}

-- What is left of a run: nothing where no project was started, and else the project exactly if its
-- destruction has failed.
abbrev pub left_by : Answers → Open
left_by a =
    if is_some a.start
    then nothing_open
    else record nothing_open { project = is_some a.teardown; gathered = true; torn_down = true }

abbrev with_pool_open : Open
with_pool_open = record nothing_open { project = true; pool = true }

abbrev with_samples : Open
with_samples = record with_pool_open { samples = true }

abbrev with_project : Open
with_project = record with_pool_open { pool = false }

module _ (a : Answers) where
  -- What has succeeded in a run without an error.
  pub record WentWell (p : Bool) : Type 0 where
    pub started_well : a.start ≡ none
    pub pooled : a.pool ≡ none
    pub described : a.capture ≡ none
    pub clean : a.dirty ≡ false
    pub manifest_written : a.manifest ≡ none
    pub connected : (p && is_some a.client) ≡ false
    pub measured_well : a.measure ≡ none
    pub reported_well : a.report ≡ none
    pub sampled_well : a.resources ≡ none
    pub collected_well : a.collect ≡ none
    pub destroyed_well : a.teardown ≡ none
    pub status_written : a.status ≡ none

  join_iff : (o : Option BenchError) → (join o ≡ []) ↔ (o ≡ none)
  join_iff o = ground arith

  append-nil_iff : (xs ys : List BenchError) → (xs ++ ys ≡ []) ↔ ((xs ≡ []) × (ys ≡ []))
  append-nil_iff [] ys = ground arith
  append-nil_iff (x ∷ xs) ys = ground arith

  measure_iff :
      (p : Bool)
      → ((measure a p).0 ≡ [])
        ↔ (((p && is_some a.client) ≡ false) × (a.measure ≡ none) × (a.report ≡ none))
  unfolding measure report
  measure_iff p = ground arith

  sampled_iff :
      (p : Bool)
      → ((sampled a p).0 ≡ []) ↔ (
          ((p && is_some a.client) ≡ false)
          × (a.measure ≡ none)
          × (a.report ≡ none)
          × (a.resources ≡ none))
  unfolding sampled
  sampled_iff p = ground (
    arith,
    measure_iff p,
    append-nil_iff (measure a p).0 (join a.resources),
    join_iff a.resources,
  )

  with_pool_iff :
      (p : Bool)
      → ((with_pool a p).0 ≡ []) ↔ (
          (a.pool ≡ none)
          × (a.capture ≡ none)
          × (a.manifest ≡ none)
          × (a.dirty ≡ false)
          × ((sampled a p).0 ≡ []))
  unfolding with_pool
  with_pool_iff p = ground arith

  parts_iff :
      (p : Bool)
      → ((run_plan a p).0 ≡ []) ↔ (
          (a.start ≡ none)
          × ((with_pool a p).0 ≡ [])
          × (a.collect ≡ none)
          × (a.teardown ≡ none)
          × (a.status ≡ none))
  unfolding run_plan
  parts_iff p =
      let ends = join a.collect ++ join a.teardown in
      ground (
        arith,
        append-nil_iff ((with_pool a p).0 ++ ends) (join a.status),
        append-nil_iff (with_pool a p).0 ends,
        append-nil_iff (join a.collect) (join a.teardown),
        join_iff a.collect,
        join_iff a.teardown,
        join_iff a.status,
      )

  -- A measured run returns no error exactly if every step of it has succeeded, on a clean source.
  pub run_plan_iff : (p : Bool) → ((run_plan a p).0 ≡ []) ↔ WentWell p
  run_plan_iff p = (
    λ h.
        let (s, w, c, d, t) = (parts_iff p).0 h in
        let (o, k, m, e, q) = (with_pool_iff p).0 w in
        let (x, y, z, u) = (sampled_iff p).0 q in
        record {
          started_well = s;
          pooled = o;
          described = k;
          clean = e;
          manifest_written = m;
          connected = x;
          measured_well = y;
          reported_well = z;
          sampled_well = u;
          collected_well = c;
          destroyed_well = d;
          status_written = t;
        },
    λ w. (parts_iff p).1 (
      w.started_well,
      (with_pool_iff p).1 (
        w.pooled,
        w.described,
        w.manifest_written,
        w.clean,
        (sampled_iff p).1 (w.connected, w.measured_well, w.reported_well, w.sampled_well),
      ),
      w.collected_well,
      w.destroyed_well,
      w.status_written,
    ),
  )
