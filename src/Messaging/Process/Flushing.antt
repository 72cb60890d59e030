-- ===== src/Messaging/Process/Flushing.antt =====
-- The steps of `processPartition`: a commit, a flush and a quarantine.
use ingestkit.Prelude.{
  ◌+◌, ◌≤◌, ◌≡◌, refl, Bool, sym, ap, ◌∙◌, inl, inr, List, [], ◌∷◌, ◌++◌, append-nil, Bytes, Result,
  err, length, All, arith, Bool-cases,
}
use ingestkit.Event.{Envelope}
use ingestkit.Messaging.Records.{KafkaRecord}
use ingestkit.Messaging.World.{Effect, commit_failed, World, Env, ◌>>=◌, pure, fail, emit, ask}
use ingestkit.Messaging.World.Triples.{Post, returned, failed, Post-bind, Post-weaken}
use ingestkit.Messaging.Process.{Limits, unless_failed, persist, commit, flush, quarantine_record}
use ingestkit.Messaging.Process.Retry.{persist_lem}
use ingestkit.Messaging.Process.Outcome.{
  Kept, Advanced, Halted, Kept-Halted, uncertain, Halted-Kept,
}
use ingestkit.Messaging.Process.Durable.{
  progress, Durable, Safe, Decoded, set_aside, earlier, length-Decoded, GaveUp-Safe,
  Persisted-Durable, Persisted-Safe,
}

module _ {E : Type 0} (decode : Bytes → Result E Envelope) (took : List Effect → Bool) (env : Env)
    (limits : Limits) where
  pub commit_lem :
      (r : KafkaRecord) (rs : List KafkaRecord) (w : World)
      → Safe decode limits.batch_size w.trace
      → All (λ x. Durable decode x w.trace) (r ∷ rs)
      → Post
          (λ _ w'. Advanced decode took env limits w (r ∷ rs) w')
          (Halted decode took env limits w (r ∷ rs))
          (commit env limits r rs w)
  unfolding commit ◌>>=◌ ask emit unless_failed pure fail progress
  commit_lem r rs w s d = elim (Bool-cases (env.commits w.tick)) [
    | inl e ↦ rw e (returned ((d, s), refl))
    | inr e ↦ rw e (
        failed (
          uncertain decode took env limits (took w.trace) w (r ∷ rs) commit_failed _ (d, s) refl
            λ f. cc))
  ]

  pub flush_lem :
      (valid : List Envelope) (source : List KafkaRecord) (w : World)
      → 1 ≤ limits.backoff_min
      → Safe decode limits.batch_size w.trace
      → Decoded decode source valid
      → length source ≤ limits.batch_size
      → Post
          (λ _ w'. Advanced decode took env limits w source w')
          (Halted decode took env limits w source)
          (flush env limits valid source w)
  unfolding flush pure
  flush_lem valid [] w b s d l = returned (s, sym (append-nil _))
  flush_lem valid (r ∷ rs) w b s d l =
      let n = length-Decoded decode (r ∷ rs) valid d in
      let low : 1 ≤ length valid = omega arith in
      let high : length valid ≤ limits.batch_size = omega arith in
      Post-bind (persist env limits valid r) _ w
        (Post-weaken (persist_lem env limits valid r w b) (λ _ w' p. p)
          (λ f w' g. Kept-Halted decode took env limits w (r ∷ rs) f w' (
            GaveUp-Safe decode took limits.batch_size env limits valid r
              (w.now + limits.retry_window) w.trace low high s g)))
        λ _ w1 p.
          let (s1, kept) =
            Persisted-Safe decode took limits.batch_size env limits valid r
              (w.now + limits.retry_window) w.trace low high s p in
          Post-weaken
            (commit_lem r rs w1 s1 (
              Persisted-Durable decode took limits.batch_size env limits valid r
                (w.now + limits.retry_window) w.trace (r ∷ rs) d p))
            (λ _ w2 q. (q.0, q.1 ∙ ap (λ x. x ++ r ∷ rs) kept))
            (λ f w2 q. Halted-Kept decode took env limits w w1 w2 (r ∷ rs) f kept q)

  pub quarantine_record_lem :
      (r : KafkaRecord) (w : World)
      → Safe decode limits.batch_size w.trace
      → (e : E) × (decode r.value ≡ err e)
      → Post
          (λ _ w'.
            Safe decode limits.batch_size w'.trace
            × (progress took w'.trace ≡ progress took w.trace)
            × Durable decode r w'.trace)
          (Kept decode took env limits w)
          (quarantine_record env limits r w)
  unfolding quarantine_record ◌>>=◌ ask emit unless_failed pure fail progress
  quarantine_record_lem r w s x = elim (Bool-cases (env.quarantines w.tick)) [
    | inl e ↦ rw e (returned ((x, s), refl, earlier set_aside))
    | inr e ↦ rw e (failed ((x, s), refl, λ f. cc))
  ]
