-- ===== src/Messaging/Process/Safety.antt =====
-- What `processPartition` leaves behind: only stored or quarantined records are committed, in the
-- order of the partition, and batches keep to their size.
use ingestkit.Prelude.{
  ◌≤◌, ◌<◌, ◌≡◌, refl, Bool, sym, ap, ◌∙◌, inl, inr, List, [], ◌∷◌, ◌++◌, append_assoc, append-nil,
  Bytes, Result, ok, err, Result-cases, leb, length, length-append, arith, Bool-cases,
}
use ingestkit.Event.{Envelope}
use ingestkit.Messaging.Records.{KafkaRecord}
use ingestkit.Messaging.World.{Effect, World, Env, pure}
use ingestkit.Messaging.World.Triples.{Post, returned, Post-bind, Post-weaken}
use ingestkit.Messaging.Process.{
  Limits, check_context, commit, flush, quarantine_record, process_record, process_from,
  process_partition,
}
use ingestkit.Messaging.Process.Retry.{check_context_lem}
use ingestkit.Messaging.Process.Durable.{progress, Safe, Decoded, Decoded-concat, length-Decoded}
use ingestkit.Messaging.Process.Flushing.{commit_lem, flush_lem, quarantine_record_lem}
use ingestkit.Messaging.Process.Outcome.{
  Advanced, Kept-Halted, Advanced-Goes, Goes, Halted, Halted-Goes, Halted-after, Halted-append,
  Halted-Kept, all_committed, regroup, source_done,
}

module _ {E : Type 0} (decode : Bytes → Result E Envelope) (took : List Effect → Bool) (env : Env)
    (limits : Limits) where
  module _ (b : 1 ≤ limits.backoff_min) (room : 0 < limits.batch_size) where
    refused_lem :
        (r : KafkaRecord) (valid : List Envelope) (source : List KafkaRecord) (e : E) (w : World)
        → decode r.value ≡ err e
        → Safe decode limits.batch_size w.trace
        → Decoded decode source valid
        → length source < limits.batch_size
        → Post
            (Goes decode took env limits w (source ++ r ∷ []))
            (Halted decode took env limits w (source ++ r ∷ []))
            (process_record env limits decode r valid source (err e) w)
    unfolding process_record pure
    refused_lem r valid source e w x s d l =
        Post-bind (flush env limits valid source) _ w
          (Post-weaken (flush_lem decode took env limits valid source w b s d (omega arith))
            (λ _ w' p. p) (λ f w' h. Halted-append decode took env limits w w' source (r ∷ []) f h))
          λ _ w1 p.
            Post-bind (quarantine_record env limits r) _ w1
              (Post-weaken (quarantine_record_lem decode took env limits r w1 p.0 (e, x))
                (λ _ w' q. q)
                (λ f w2 k. source_done decode took env limits r source w w2 f k.0 (k.1 ∙ p.1) k.2))
              λ _ w2 q.
                Post-bind (commit env limits r []) _ w2
                  (Post-weaken (commit_lem decode took env limits r [] w2 q.0 (q.2, tt))
                    (λ _ w' t. t)
                    (λ f w3 k.
                      Halted-after decode took env limits w w2 w3 source (r ∷ []) f (q.1 ∙ p.1) k))
                  λ _ w3 t. returned (
                    all_committed decode took env limits w w3 _ room (
                      t.0,
                      t.1
                          ∙ ap (λ h. h ++ r ∷ []) (q.1 ∙ p.1)
                          ∙ append_assoc (progress took w.trace) source (r ∷ []),
                    ))

    accepted_lem :
        (r : KafkaRecord) (valid : List Envelope) (source : List KafkaRecord) (e : Envelope)
        (w : World)
        → decode r.value ≡ ok e
        → Safe decode limits.batch_size w.trace
        → Decoded decode source valid
        → length source < limits.batch_size
        → Post
            (Goes decode took env limits w (source ++ r ∷ []))
            (Halted decode took env limits w (source ++ r ∷ []))
            (process_record env limits decode r valid source (ok e) w)
    unfolding process_record pure
    accepted_lem r valid source e w x s d l =
        let d' = Decoded-concat decode source valid r e d x in
        let n = length-Decoded decode (source ++ r ∷ []) (valid ++ e ∷ []) d' in
        let m = length-append source (r ∷ []) in
        elim (Bool-cases (leb limits.batch_size (length (valid ++ e ∷ [])))) [
          | inl full ↦ rw full (
              Post-bind (flush env limits (valid ++ e ∷ []) (source ++ r ∷ [])) _ w
                (Post-weaken
                  (flush_lem decode took env limits (valid ++ e ∷ []) (source ++ r ∷ []) w b s d'
                    (omega arith))
                  (λ _ w' p. p) (λ f w' h. h))
                λ _ w1 p. returned (all_committed decode took env limits w w1 _ room p))
          | inr open_batch ↦ rw open_batch (
              returned (record {
                safe = s;
                decoded = d';
                room = ground arith;
                done = [];
                committed_first = sym (append-nil _);
                split = refl;
              }))
        ]

    record_lem :
        (r : KafkaRecord) (valid : List Envelope) (source : List KafkaRecord) (w : World)
        → Safe decode limits.batch_size w.trace
        → Decoded decode source valid
        → length source < limits.batch_size
        → Post
            (Goes decode took env limits w (source ++ r ∷ []))
            (Halted decode took env limits w (source ++ r ∷ []))
            (process_record env limits decode r valid source (decode r.value) w)
    record_lem r valid source w s d l = elim (Result-cases (decode r.value)) [
      | inl v ↦ rw (v.1) (accepted_lem r valid source v.0 w v.1 s d l)
      | inr v ↦ rw (v.1) (refused_lem r valid source v.0 w v.1 s d l)
    ]

    process_from_lem :
        (valid : List Envelope) (source rs : List KafkaRecord) (w : World)
        → Safe decode limits.batch_size w.trace
        → Decoded decode source valid
        → length source < limits.batch_size
        → Post
            (λ _ w'. Advanced decode took env limits w (source ++ rs) w')
            (Halted decode took env limits w (source ++ rs))
            (process_from env limits decode valid source rs w)
    unfolding process_from
    process_from_lem valid source [] w s d l =
        Post-weaken (flush_lem decode took env limits valid source w b s d (omega arith))
          (λ _ w' p. (p.0, p.1 ∙ ap (λ x. progress took w.trace ++ x) (sym (append-nil source))))
          (λ f w' h. Halted-append decode took env limits w w' source [] f h)
    process_from_lem valid source (r ∷ rs) w s d l =
        Post-bind (check_context env) _ w
          (Post-weaken (check_context_lem env w) (λ _ w' q. q)
            (λ f w' q.
              Kept-Halted decode took env limits w _ f w'
                (rw (q.1.trace) s, ap (progress took) q.1.trace, λ e. cc (q.0, e))))
          λ _ w1 q.
            Post-weaken {Q = λ _ w'. Advanced decode took env limits w1 (source ++ r ∷ rs) w'}
              {E = Halted decode took env limits w1 (source ++ r ∷ rs)}
              (Post-bind (process_record env limits decode r valid source (decode r.value)) _ w1
                (Post-weaken (record_lem r valid source w1 (rw (q.trace) s) d l) (λ _ w' p. p)
                  (λ f w2 h.
                    rw (← regroup decode took env limits source r rs)
                      (Halted-append decode took env limits w1 w2 _ rs f h)))
                λ pending w2 p.
                  Post-weaken (process_from_lem pending.0 pending.1 rs w2 p.safe p.decoded p.room)
                    (λ _ w3 t.
                      rw (← regroup decode took env limits source r rs)
                        (Advanced-Goes decode took env limits w1 w2 w3 _ rs pending p t))
                    (λ f w3 h.
                      rw (← regroup decode took env limits source r rs)
                        (Halted-Goes decode took env limits w1 w2 w3 _ rs pending f p h)))
              (λ _ w3 t. (t.0, t.1 ∙ ap (λ h. progress took h ++ (source ++ r ∷ rs)) q.trace))
              (λ f w3 h.
                Halted-Kept decode took env limits w w1 w3 _ f (ap (progress took) q.trace) h)

    -- From a trace on which only durable records were committed, `processPartition` always ends,
    -- and keeps it so. If it returns, the broker has moved over all records of the partition, in
    -- their order; if it fails, over the first ones, in their order, whether or not it has made a
    -- commit that reports an error.
    pub process_partition_lem :
        (records : List KafkaRecord) (w : World)
        → Safe decode limits.batch_size w.trace
        → Post
            (λ _ w'. Advanced decode took env limits w records w')
            (Halted decode took env limits w records)
            (process_partition env limits decode records w)
    unfolding process_partition
    process_partition_lem records w s = process_from_lem [] [] records w s tt room
