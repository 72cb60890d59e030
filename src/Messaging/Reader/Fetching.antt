-- ===== src/Messaging/Reader/Fetching.antt =====
-- What a fetch leaves behind, and a whole run of the polling loop.
use ingestkit.Prelude.{
  ℕ, suc, ◌≤◌, ◌<◌, ◌≡◌, refl, sym, ap, ◌∙◌, inl, inr, Bool, true, false, List, [], ◌∷◌, ◌++◌,
  append-nil, Bytes, Result, Bool-cases, if◌then◌else◌,
}
use ingestkit.Event.{Envelope}
use ingestkit.Messaging.Records.{KafkaRecord}
use ingestkit.Messaging.World.{
  Effect, allowed_rebalance, Failure, context_done, fetch_failed, out_of_fuel, World, Env, M, ◌>>=◌,
  ◌>>◌, pure, fail, ask,
}
use ingestkit.Messaging.World.Triples.{Post, returned, failed, Post-bind, Post-ask, Post-weaken}
use ingestkit.Messaging.Process.{Limits, check_context, process_partition}
use ingestkit.Messaging.Process.Retry.{Same, Answered, check_context_lem}
use ingestkit.Messaging.Process.Durable.{progress, Safe}
use ingestkit.Messaging.Process.Outcome.{
  Advanced, Halted, Kept-Halted, Halted-Kept, all_committed, Advanced-Goes, Halted-Goes,
  Halted-append,
}
use ingestkit.Messaging.Process.Safety.{process_partition_lem}
use ingestkit.Messaging.Reader.{
  FetchError, canceled, other, Fetches, process_partitions, fetch_errors, process_fetched, run,
}

abbrev pub flat : List (List KafkaRecord) → List KafkaRecord
flat [] = []
flat (rs ∷ ps) = rs ++ flat ps

module _ (env : Env) (limits : Limits) {E : Type 0} (decode : Bytes → Result E Envelope)
    (took : List Effect → Bool) (b : 1 ≤ limits.backoff_min) (room : 0 < limits.batch_size) where
  abbrev Went : World → List KafkaRecord → World → Type 0
  Went w rs w' = Advanced decode took env limits w rs w'

  abbrev Stopped : World → List KafkaRecord → Failure → World → Type 0
  Stopped w rs f w' = Halted decode took env limits w rs f w'

  process_partitions_lem :
      (ps : List (List KafkaRecord)) (w : World)
      → Safe decode limits.batch_size w.trace
      → Post
          (λ _ w'. Went w (flat ps) w')
          (Stopped w (flat ps))
          (process_partitions env limits decode ps w)
  unfolding process_partitions pure
  process_partitions_lem [] w s = returned (s, sym (append-nil _))
  process_partitions_lem ([] ∷ ps) w s = process_partitions_lem ps w s
  process_partitions_lem ((r ∷ rs) ∷ ps) w s =
      Post-bind (process_partition env limits decode (r ∷ rs)) _ w
        (Post-weaken (process_partition_lem decode took env limits b room (r ∷ rs) w s)
          (λ _ w' p. p)
          (λ f w' h. Halted-append decode took env limits w w' (r ∷ rs) (flat ps) f h))
        λ _ w1 p.
          let g = all_committed decode took env limits w w1 (r ∷ rs) room p in
          Post-weaken (process_partitions_lem ps w1 p.0)
            (λ _ w2 q. Advanced-Goes decode took env limits w w1 w2 (r ∷ rs) (flat ps) ([], []) g q)
            (λ f w2 h. Halted-Goes decode took env limits w w1 w2 (r ∷ rs) (flat ps) ([], []) f g h)

  fetch_errors_lem :
      (ignore : Bool) (es : List FetchError) (w : World)
      → Post
          (λ _ w'. w'.trace ≡ w.trace)
          (λ f w'. (f ≡ fetch_failed) × (w'.trace ≡ w.trace))
          (fetch_errors env limits decode ignore es w)
  unfolding fetch_errors pure fail ask ◌>>=◌
  fetch_errors_lem ignore [] w = returned refl
  fetch_errors_lem ignore (other ∷ es) w = failed (refl, refl)
  fetch_errors_lem false (canceled ∷ es) w = failed (refl, refl)
  fetch_errors_lem true (canceled ∷ es) w = elim (Bool-cases (env.done w.tick)) [
    | inl e ↦ rw e (failed (refl, refl))
    | inr e ↦ rw e (fetch_errors_lem true es _)
  ]

  -- An error behind the partitions: all their records are committed.
  Went-Stopped :
      (w w1 w2 : World) (rs : List KafkaRecord) (f : Failure)
      → Went w rs w1
      → w2.trace ≡ w1.trace
      → (f ≡ out_of_fuel → ⊥)
      → Stopped w rs f w2
  Went-Stopped w w1 w2 rs f p e n = record {
    safe = rw e p.0;
    done = rs;
    rest = [];
    committed_first = ap (progress took) e ∙ p.1;
    split = append-nil rs;
    in_fuel = n;
  }

  body_lem :
      (f : Fetches) (ignore : Bool) (w : World)
      → Safe decode limits.batch_size w.trace
      → Post
          (λ _ w'. Went w (flat f.partitions) w')
          (Stopped w (flat f.partitions))
          ((do
            process_partitions env limits decode f.partitions
            fetch_errors env limits decode ignore f.errors
            check_context env)
            w)
  body_lem f ignore w s =
      Post-bind (process_partitions env limits decode f.partitions) _ w
        (process_partitions_lem f.partitions w s)
        λ _ w1 p.
          Post-bind (fetch_errors env limits decode ignore f.errors) _ w1
            (Post-weaken (fetch_errors_lem ignore f.errors w1) (λ _ w' e. e)
              (λ x w' e. Went-Stopped w w1 w' _ x p e.1 (λ o. cc (e.0, o))))
            λ _ w2 e.
              Post-weaken (check_context_lem env w2)
                (λ _ w3 q. (rw (q.trace, e) p.0, ap (progress took) (q.trace ∙ e) ∙ p.1))
                (λ x w3 q. Went-Stopped w w1 w3 _ x p (q.1.trace ∙ e) (λ o. cc (q.0, o)))

  -- The last effect is the one that lets the group rebalance.
  abbrev pub Allowed : World → Type 0
  Allowed w = (h : List Effect) × (w.trace ≡ allowed_rebalance ∷ h)

  finally_lem :
      (w : World) (rs : List KafkaRecord) (r : Result Failure (Unit {0}) × World)
      → Post (λ _ w'. Went w rs w') (Stopped w rs) r
      → Post
          (λ _ w'. Went w rs w' × Allowed w')
          (λ f w'. Stopped w rs f w' × Allowed w')
          (r.0, record (r.1) { trace = allowed_rebalance ∷ r.1.trace })
  unfolding progress
  finally_lem w rs r (returned p) = returned (p, (_, refl))
  finally_lem w rs r (failed h) = failed (
    record {
      safe = h.safe;
      done = h.done;
      rest = h.rest;
      committed_first = h.committed_first;
      split = h.split;
      in_fuel = h.in_fuel;
    },
    (_, refl),
  )

  -- A fetch is worked off with the group allowed to rebalance as the last effect, whatever
  -- happens. If it succeeds, the broker has moved over the records of all its partitions, one
  -- partition after the other; if it fails, over a first part of them. Only durable records are
  -- committed.
  pub process_fetched_lem :
      (f : Fetches) (ignore : Bool) (w : World)
      → Safe decode limits.batch_size w.trace
      → Post
          (λ _ w'. Went w (flat f.partitions) w' × Allowed w')
          (λ x w'. Stopped w (flat f.partitions) x w' × Allowed w')
          (process_fetched env limits decode f ignore w)
  unfolding process_fetched
  process_fetched_lem f ignore w s = finally_lem w (flat f.partitions) _ (body_lem f ignore w s)

  -- The records of all fetches, in their order.
  abbrev pub records : List Fetches → List KafkaRecord
  records [] = []
  records (f ∷ fs) = flat f.partitions ++ records fs

  -- The loop has worked off the first of the fetches, and all of their records.
  pub record Polled (w : World) (fs : List Fetches) (w' : World) : Type 0 where
    pub before : List Fetches
    pub after : List Fetches
    pub split : before ++ after ≡ fs
    pub went : Went w (records before) w'

  at_start :
      (w w' : World) (fs : List Fetches)
      → Safe decode limits.batch_size w.trace
      → w'.trace ≡ w.trace
      → Polled w fs w'
  at_start w w' fs s e = record {
    before = [];
    after = fs;
    split = refl;
    went = (rw e s, ap (progress took) e ∙ sym (append-nil _));
  }

  one_further :
      (w w1 w2 : World) (f : Fetches) (fs : List Fetches)
      → Went w (flat f.partitions) w1
      → Polled w1 fs w2
      → Polled w (f ∷ fs) w2
  one_further w w1 w2 f fs p q = record {
    before = f ∷ q.before;
    after = q.after;
    split = ap (λ r. f ∷ r) q.split;
    went =
        Advanced-Goes decode took env limits w w1 w2 (flat f.partitions) (records q.before) ([], [])
          (all_committed decode took env limits w w1 (flat f.partitions) room p) q.went;
  }

  abbrev Runs : World → List Fetches → Result Failure (Unit {0}) × World → Type 0
  Runs w fs = Post (λ _ w'. Polled w fs w') (λ f w'. Stopped w (records fs) f w')

  fetched :
      (stopping : ℕ → Bool) (next : M (Unit {0})) (f : Fetches) (fs : List Fetches) (ignore : Bool)
      (w : World)
      → Safe decode limits.batch_size w.trace
      → ((w' : World) → Safe decode limits.batch_size w'.trace → Runs w' fs (next w'))
      → Runs w (f ∷ fs) (
          (do
            process_fetched env limits decode f ignore
            end ← ask stopping
            if end then pure tt else next)
            w)
  unfolding pure
  fetched stopping next f fs ignore w s k =
      Post-bind (process_fetched env limits decode f ignore) _ w
        (Post-weaken (process_fetched_lem f ignore w s) (λ _ w' p. p)
          (λ x w' h.
            Halted-append decode took env limits w w' (flat f.partitions) (records fs) x h.0))
        λ _ w1 p. Post-ask stopping _ w1 (elim (Bool-cases (stopping w1.tick)) [
          | inl e ↦ rw e (returned (one_further w w1 _ f fs p.0 (at_start w1 _ fs p.0.0 refl)))
          | inr e ↦ rw e (
              let w2 : World = record w1 { tick = suc w1.tick } in
              Post-weaken (k w2 p.0.0) (λ _ w3 q. one_further w w2 w3 f fs p.0 q)
                (λ x w3 h.
                  Halted-Goes decode took env limits w w2 w3 (flat f.partitions) (records fs)
                    ([], []) x
                    (all_committed decode took env limits w w2 (flat f.partitions) room p.0) h))
        ])

  -- The same from a world with the same effects.
  moved :
      (w w1 : World) (fs : List Fetches) (r : Result Failure (Unit {0}) × World)
      → w1.trace ≡ w.trace
      → Runs w1 fs r
      → Runs w fs r
  moved w w1 fs r e h =
      let same : progress took w1.trace ≡ progress took w.trace = ap (progress took) e in
      Post-weaken h
        (λ _ w2 p. record {
          before = p.before;
          after = p.after;
          split = p.split;
          went = (p.went.0, p.went.1 ∙ ap (λ x. x ++ records p.before) same);
        })
        (λ f w2 p. Halted-Kept decode took env limits w w1 w2 (records fs) f same p)

  not_begun :
      (w w' : World) (fs : List Fetches) (f : Failure)
      → Safe decode limits.batch_size w.trace
      → (f ≡ context_done) × Same w w' × Answered env.done w'
      → Stopped w (records fs) f w'
  not_begun w w' fs f s q =
      Kept-Halted decode took env limits w (records fs) f w'
        (rw (q.1.trace) s, ap (progress took) q.1.trace, λ o. cc (q.0, o))

  -- However the polling loop goes on and ends, the broker has moved over the records of the fetches
  -- in their order: over all those of a first part of the fetches if it returns, and over a first
  -- part of the records if it fails. Only durable records are committed, and a retry never runs out
  -- of fuel.
  pub run-Polled :
      (stopping : ℕ → Bool) (fs : List Fetches) (w : World)
      → Safe decode limits.batch_size w.trace
      → Post
          (λ _ w'. Polled w fs w')
          (λ f w'. Stopped w (records fs) f w')
          (run env limits decode stopping fs w)
  unfolding run pure
  run-Polled stopping [] w s =
      Post-weaken (check_context_lem env w) (λ _ w' q. at_start w w' [] s q.trace)
        (λ f w' q. not_begun w w' [] f s q)
  run-Polled stopping (f ∷ fs) w s =
      Post-bind (check_context env) _ w
        (Post-weaken (check_context_lem env w) (λ _ w' q. q)
          (λ x w' q. not_begun w w' (f ∷ fs) x s q))
        λ _ w1 q.
          let s1 : Safe decode limits.batch_size w1.trace = rw (q.trace) s in
          moved w w1 (f ∷ fs) _ q.trace (
            Post-ask stopping _ w1 (elim (Bool-cases (stopping w1.tick)) [
              | inl e ↦ rw e (returned (at_start w1 _ (f ∷ fs) s1 refl))
              | inr e ↦ rw e (
                  let w2 : World = record w1 { tick = suc (suc w1.tick) } in
                  Post-ask stopping _ _ (
                    moved w1 w2 (f ∷ fs) _ refl (
                      fetched stopping (run env limits decode stopping fs) f fs
                        (stopping (suc w1.tick)) w2 s1 (run-Polled stopping fs))))
            ]))
