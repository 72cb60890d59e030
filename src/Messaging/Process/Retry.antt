-- ===== src/Messaging/Process/Retry.antt =====
-- `persist`: it always ends, returns only when the batch is stored, and does nothing but write it.
use ingestkit.Prelude.{
  ℕ, zero, suc, ◌+◌, ◌≤◌, ◌<◌, ◌≡◌, refl, ap, ◌∙◌, ◌⊎◌, inl, inr, Bool, true, false, List, ◌∷◌,
  ◌||◌, Result, ltb, arith, Bool-cases, if◌then◌else◌,
}
use ingestkit.Event.{Envelope}
use ingestkit.Messaging.Records.{KafkaRecord}
use ingestkit.Messaging.World.{
  storage, Effect, wrote, notified, observed_write, observed_retry, Failure, context_done,
  retry_exhausted, World, Env, M, ◌>>=◌, pure, fail, emit, ask, clock, pass,
}
use ingestkit.Messaging.World.Triples.{Post, returned, failed, Post-bind, Post-weaken}
use ingestkit.Messaging.Process.{
  Limits, next_backoff, unless_failed, check_context, write_batch, wait, after_write, attempts,
  persist,
}

-- The trace after rounds of `persist` that have failed and gone on, each with its backoff, and the
-- backoff after them: `h` is the trace before the rounds.
pub data Failing (limits : Limits) (events : List Envelope) (source : KafkaRecord) (h : List Effect)
    : ℕ → List Effect → Type 0 where
  start : Failing limits events source h limits.backoff_min h
  again :
      {backoff : ℕ} {k : List Effect}
      → Failing limits events source h backoff k
      → Failing limits events source h
          (next_backoff limits.backoff_max backoff)
          (observed_retry ∷ notified storage source false ∷ wrote events false ∷ k)

-- The answer that was asked for last, before the world.
pub data Answered (f : ℕ → Bool) (w : World) : Type 0 where
  answered : (tick : ℕ) → w.tick ≡ suc tick → f tick ≡ true → Answered f w

module _ (env : Env) (limits : Limits) (events : List Envelope) (source : KafkaRecord)
    (deadline : ℕ) (h : List Effect) where
  -- The trace after a return: the last write has succeeded.
  pub record Persisted (now : List Effect) : Type 0 where
    pub before : List Effect
    pub backoff : ℕ
    pub failing : Failing limits events source h backoff before
    pub shape :
        now ≡ observed_write events ∷ notified storage source true ∷ wrote events true ∷ before

  -- The world after an error: either the caller's context is done, as it was asked last, before an
  -- attempt or behind a failed one; or, behind a failed attempt, the wait was cut short, or the
  -- backoff of this round does not end within the window.
  pub data GaveUp : Failure → World → Type 0 where
    before_attempt :
        {backoff : ℕ} {w : World}
        → Failing limits events source h backoff w.trace
        → Answered env.done w
        → GaveUp context_done w
    after_attempt :
        {backoff : ℕ} {w : World} (k : List Effect)
        → Failing limits events source h backoff k
        → w.trace ≡ notified storage source false ∷ wrote events false ∷ k
        → Answered env.done w
        → GaveUp context_done w
    exhausted :
        {backoff : ℕ} {w : World} (k : List Effect)
        → Failing limits events source h backoff k
        → w.trace ≡ observed_retry ∷ notified storage source false ∷ wrote events false ∷ k
        → Answered env.interrupted w ⊎ (deadline < w.now + backoff)
        → GaveUp retry_exhausted w

backoff-le-next_backoff : (m b : ℕ) → b ≤ next_backoff m b
unfolding next_backoff
backoff-le-next_backoff m b = ground arith

pub record Same (w w' : World) : Type 0 where
  pub trace : w'.trace ≡ w.trace
  pub now : w'.now ≡ w.now

pub check_context_lem :
    (env : Env) (w : World)
    → Post
        (λ _ w'. Same w w')
        (λ f w'. (f ≡ context_done) × Same w w' × Answered env.done w')
        (check_context env w)
unfolding check_context unless_failed ◌>>=◌ pure fail ask
check_context_lem env w = elim (Bool-cases (env.done w.tick)) [
  | inl e ↦ rw e (failed (refl, record { trace = refl; now = refl }, answered w.tick refl e))
  | inr e ↦ rw e (returned (record { trace = refl; now = refl }))
]

module _ (env : Env) (limits : Limits) where
  write_batch_lem :
      (events : List Envelope) (source : KafkaRecord) (w : World)
      → Post
          (λ done w'.
            (w'.trace ≡ notified storage source done ∷ wrote events done ∷ w.trace)
            × (w.now ≤ w'.now))
          (λ f w'. ⊥)
          (write_batch env limits events source w)
  unfolding write_batch ◌>>=◌ pure emit ask pass
  write_batch_lem events source w = returned (refl, omega arith)

  -- A wait that does not end the window ends within it, a backoff later.
  wait_lem :
      (deadline backoff : ℕ) (w : World)
      → Post
          (λ ended w'.
            (w'.trace ≡ w.trace)
            × (ended ≡ false → (w'.now ≤ deadline) × (w'.now ≡ w.now + backoff))
            × (ended ≡ true → Answered env.interrupted w' ⊎ (deadline < w'.now + backoff)))
          (λ f w'. ⊥)
          (wait env limits deadline backoff w)
  unfolding wait ◌>>=◌ pure ask clock pass
  wait_lem deadline backoff w =
      elim (Bool-cases (env.interrupted w.tick || ltb deadline (w.now + backoff))) [
        | inl e ↦ rw e (returned (refl, λ f. cc, λ f. why e))
        | inr e ↦ rw e (returned (refl, λ f. (ground arith, refl), λ f. cc))
      ]
    where
      why :
          (env.interrupted w.tick || ltb deadline (w.now + backoff)) ≡ true
          → Answered env.interrupted (record w { tick = suc w.tick }) ⊎ (deadline < w.now + backoff)
      why e = elim (Bool-cases (env.interrupted w.tick)) [
        | inl c ↦ inl (answered w.tick refl c)
        | inr c ↦ inr (ground (arith, e, c))
      ]

module _ (env : Env) (limits : Limits) (events : List Envelope) (source : KafkaRecord) where
  module _ (h : List Effect) (deadline : ℕ) where
    abbrev Ends : Result Failure (Unit {0}) × World → Type 0
    Ends =
        Post (λ _ w. Persisted env limits events source deadline h w.trace)
          (λ f w. GaveUp env limits events source deadline h f w)

    -- Behind the wait: the window is over, or the loop goes on.
    after_wait :
        (backoff : ℕ) (go_on : M (Unit {0})) (w : World) {k : List Effect}
        → Failing limits events source h backoff k
        → (ended : Bool) (w' : World)
        → w'.trace ≡ observed_retry ∷ notified storage source false ∷ wrote events false ∷ k
        → (ended ≡ false → (w'.now ≤ deadline) × (w'.now ≡ w.now + backoff))
        → (ended ≡ true → Answered env.interrupted w' ⊎ (deadline < w'.now + backoff))
        → ((u : World)
            → Failing limits events source h (next_backoff limits.backoff_max backoff) u.trace
            → u.now ≤ deadline
            → u.now ≡ w.now + backoff
            → Ends (go_on u))
        → Ends ((if ended then fail retry_exhausted else go_on) w')
    unfolding fail
    after_wait backoff go_on w {k = k'} g true w' e t o k = failed (exhausted k' g e (o refl))
    after_wait backoff go_on w g false w' e t o k = k w' (rw e (again g)) (t refl).0 (t refl).1

    after_failure :
        (backoff : ℕ) (go_on : M (Unit {0})) (w : World) {k : List Effect}
        → Failing limits events source h backoff k
        → w.trace ≡ notified storage source false ∷ wrote events false ∷ k
        → ((u : World)
            → Failing limits events source h (next_backoff limits.backoff_max backoff) u.trace
            → u.now ≤ deadline
            → u.now ≡ w.now + backoff
            → Ends (go_on u))
        → Ends (after_write env limits events deadline backoff go_on false w)
    unfolding after_write ◌>>=◌ emit
    after_failure backoff go_on w {k = k'} g e k =
        Post-bind (check_context env) _ w
          (Post-weaken (check_context_lem env w) (λ _ w' s. s)
            (λ f w' s. rw (s.0) (after_attempt k' g (s.1.trace ∙ e) s.2)))
          λ _ w1 s.
            let w2 : World = record w1 { trace = observed_retry ∷ w1.trace } in
            Post-bind (wait env limits deadline backoff) _ w2
              (Post-weaken (wait_lem env limits deadline backoff w2) (λ _ w' p. p)
                (λ f w' p. absurd p))
              λ ended w3 p.
                after_wait backoff go_on w g ended w3 (rw (p.0, s.trace, e) refl)
                  (λ q. ((p.1 q).0, (p.1 q).1 ∙ ap (λ n. n + backoff) s.now)) p.2 k

    after_success :
        (backoff : ℕ) (go_on : M (Unit {0})) (w : World) {k : List Effect}
        → Failing limits events source h backoff k
        → w.trace ≡ notified storage source true ∷ wrote events true ∷ k
        → Ends (after_write env limits events deadline backoff go_on true w)
    unfolding after_write emit
    after_success backoff go_on w {k} g e =
        returned (record { before = k; backoff = backoff; failing = g; shape = rw e })

    after_written :
        (backoff : ℕ) (go_on : M (Unit {0})) (w : World)
        → 1 ≤ backoff
        → Failing limits events source h backoff w.trace
        → ((u : World)
            → Failing limits events source h (next_backoff limits.backoff_max backoff) u.trace
            → u.now ≤ deadline
            → w.now + 1 ≤ u.now
            → Ends (go_on u))
        → (done : Bool) (w' : World)
        → w'.trace ≡ notified storage source done ∷ wrote events done ∷ w.trace
        → w.now ≤ w'.now
        → Ends (after_write env limits events deadline backoff go_on done w')
    after_written backoff go_on w c g k true w' e n = after_success backoff go_on w' g e
    after_written backoff go_on w c g k false w' e n =
        after_failure backoff go_on w' g e λ u f i j. k u f i (omega arith)

    attempts_lem :
        (fuel backoff : ℕ) (w : World)
        → Failing limits events source h backoff w.trace
        → w.now ≤ deadline
        → deadline + 2 ≤ w.now + fuel
        → 1 ≤ backoff
        → Ends (attempts env limits fuel deadline events source backoff w)
    unfolding attempts
    attempts_lem zero backoff w g a b c = absurd (omega arith)
    attempts_lem (suc fuel) backoff w g a b c =
        Post-bind (check_context env) _ w
          (Post-weaken (check_context_lem env w) (λ _ w' s. s)
            (λ f w' s. rw (s.0) (before_attempt {backoff = backoff} (rw (s.1.trace) g) s.2)))
          λ _ w1 s.
            Post-bind (write_batch env limits events source) _ w1
              (Post-weaken (write_batch_lem env limits events source w1) (λ done w' p. p)
                (λ f w' p. absurd p))
              λ done w2 p.
                after_written backoff _ w c g
                  (λ u f i j.
                    attempts_lem fuel (next_backoff limits.backoff_max backoff) u f i (omega arith)
                      (omega (arith, backoff-le-next_backoff limits.backoff_max backoff)))
                  done w2 (rw (s.trace) at p.0) (omega arith)

  -- With a positive first backoff `persist` always ends, and writes the same events each time and
  -- nothing else. It returns with the last write successful and all before it failed, or gives up:
  -- because the caller's context is done when it is asked last, or behind a failed write, because
  -- the wait was cut short or the backoff, doubled up to its maximum in each round, does not end
  -- within the retry window from the start on.
  pub persist_lem :
      (w : World)
      → 1 ≤ limits.backoff_min
      → Post
          (λ _ w'.
            Persisted env limits events source (w.now + limits.retry_window) w.trace w'.trace)
          (λ f w'. GaveUp env limits events source (w.now + limits.retry_window) w.trace f w')
          (persist env limits events source w)
  unfolding persist ◌>>=◌ clock
  persist_lem w b =
      attempts_lem w.trace (w.now + limits.retry_window) (suc (suc limits.retry_window))
        limits.backoff_min w start (omega arith) (omega arith) b
