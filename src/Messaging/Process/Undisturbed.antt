-- ===== src/Messaging/Process/Undisturbed.antt =====
-- A process to which every other system answers well works its records off.
use ingestkit.Prelude.{
  ℕ, suc, ◌≡◌, refl, inl, inr, true, false, Bool-cases, List, [], ◌∷◌, ◌++◌, Bytes, Result, ok, err,
  leb, length,
}
use ingestkit.Event.{Envelope}
use ingestkit.Messaging.Records.{KafkaRecord}
use ingestkit.Messaging.World.{Failure, World, Env, M, ◌>>=◌, pure, emit, ask, clock, pass}
use ingestkit.Messaging.World.Triples.{Post, returned, failed, Post-bind}
use ingestkit.Messaging.Process.{
  Limits, unless_failed, check_context, write_batch, after_write, attempts, persist, commit, flush,
  quarantine_record, process_record, process_from, process_partition,
}

pub record Undisturbed (env : Env) : Type 0 where
  pub going_on : (t : ℕ) → env.done t ≡ false
  pub written : (t : ℕ) → (env.writes t).0 ≡ true
  pub committed : (t : ℕ) → env.commits t ≡ true
  pub set_aside : (t : ℕ) → env.quarantines t ≡ true

-- An action that returns.
abbrev pub Returns : {A : Type 0} → M A → World → Type 0
Returns m w = Post (λ _ _. Unit {0}) (λ _ _. ⊥) (m w)

module _ {A B : Type 0} where
  Returns-bind :
      (m : M A) (f : A → M B) (w : World)
      → Returns m w
      → ((a : A) (w' : World) → Returns (f a) w')
      → Returns (m >>= f) w
  Returns-bind m f w h k = Post-bind m f w h (λ a w' _. k a w')

module _ {Q : Unit {0} → World → Type 0} {X : Failure → World → Type 0} where
  -- What holds of an action that returns.
  pub Post-returned :
      (out : Result Failure (Unit {0}) × World)
      → Post (λ _ _. Unit {0}) (λ _ _. ⊥) out
      → Post Q X out
      → (out.0 ≡ ok tt) × Q tt out.1
  Post-returned out (returned u) (returned q) = (refl, q)
  Post-returned out (failed e) q = absurd e

module _ (env : Env) (limits : Limits) (u : Undisturbed env) where
  check_context-Returns : (w : World) → Returns (check_context env) w
  unfolding check_context unless_failed ◌>>=◌ pure ask
  check_context-Returns w = rw (u.going_on w.tick) (returned tt)

  written-Returns :
      (events : List Envelope) (deadline backoff : ℕ) (again : M (Unit {0})) (w : World)
      → Returns (after_write env limits events deadline backoff again true) w
  unfolding after_write emit
  written-Returns events deadline backoff again w = returned tt

  persist-Returns :
      (events : List Envelope) (source : KafkaRecord) (w : World)
      → Returns (persist env limits events source) w
  unfolding persist attempts write_batch ◌>>=◌ pure ask clock pass emit check_context unless_failed
      after_write
  persist-Returns events source w = rw (u.going_on w.tick, u.written (suc w.tick)) (returned tt)

  commit-Returns :
      (r : KafkaRecord) (rs : List KafkaRecord) (w : World) → Returns (commit env limits r rs) w
  unfolding commit ◌>>=◌ ask emit unless_failed pure
  commit-Returns r rs w = rw (u.committed w.tick) (returned tt)

  flush-Returns :
      (valid : List Envelope) (source : List KafkaRecord) (w : World)
      → Returns (flush env limits valid source) w
  unfolding flush pure
  flush-Returns valid [] w = returned tt
  flush-Returns valid (r ∷ rs) w =
      Returns-bind (persist env limits valid r) _ w (persist-Returns valid r w)
        (λ _ w'. commit-Returns r rs w')

  quarantine-Returns : (r : KafkaRecord) (w : World) → Returns (quarantine_record env limits r) w
  unfolding quarantine_record ◌>>=◌ ask emit unless_failed pure
  quarantine-Returns r w = rw (u.set_aside w.tick) (returned tt)

  module _ {E : Type 0} (decode : Bytes → Result E Envelope) where
    record-Returns :
        (r : KafkaRecord) (valid : List Envelope) (source : List KafkaRecord)
        (d : Result E Envelope) (w : World)
        → Returns (process_record env limits decode r valid source d) w
    unfolding process_record pure
    record-Returns r valid source (err e) w =
        Returns-bind (flush env limits valid source) _ w (flush-Returns valid source w) λ _ w1.
          Returns-bind (quarantine_record env limits r) _ w1 (quarantine-Returns r w1) λ _ w2.
            Returns-bind (commit env limits r []) _ w2 (commit-Returns r [] w2) λ _ w3. returned tt
    record-Returns r valid source (ok e) w =
        elim (Bool-cases (leb limits.batch_size (length (valid ++ e ∷ [])))) [
          | inl full ↦ rw full (
              Returns-bind (flush env limits (valid ++ e ∷ []) (source ++ r ∷ [])) _ w
                (flush-Returns _ _ w) λ _ w'. returned tt)
          | inr open_batch ↦ rw open_batch (returned tt)
        ]

    from-Returns :
        (valid : List Envelope) (source rs : List KafkaRecord) (w : World)
        → Returns (process_from env limits decode valid source rs) w
    unfolding process_from
    from-Returns valid source [] w = flush-Returns valid source w
    from-Returns valid source (r ∷ rs) w =
        Returns-bind (check_context env) _ w (check_context-Returns w) λ _ w1.
          Returns-bind (process_record env limits decode r valid source (decode r.value)) _ w1
            (record-Returns r valid source (decode r.value) w1)
            λ pending w2. from-Returns pending.0 pending.1 rs w2

    pub process_partition-Returns :
        (rs : List KafkaRecord) (w : World) → Returns (process_partition env limits decode rs) w
    unfolding process_partition
    process_partition-Returns rs w = from-Returns [] [] rs w
