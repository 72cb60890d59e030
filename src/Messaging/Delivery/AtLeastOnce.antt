-- ===== src/Messaging/Delivery/AtLeastOnce.antt =====
-- A partition over the life of any number of processes: what the broker has passed is delivered.
use ingestkit.Prelude.{
  ℕ, ◌≡◌, ◌≤◌, ◌<◌, refl, sym, ap, ◌∙◌, ◌||◌, inl, inr, Bool, Bool-cases, List, [], ◌∷◌, ◌++◌,
  append_assoc, append-nil, Option, none, Bytes, Result, ok, All, All-append,
}
use ingestkit.Event.{Envelope}
use ingestkit.Messaging.Records.{KafkaRecord}
use ingestkit.Messaging.World.{
  Effect, wrote, committed, quarantined, notified, observed_write, observed_retry,
  allowed_rebalance, Failure, World, Env,
}
use ingestkit.Messaging.World.Triples.{Post, returned, failed}
use ingestkit.Messaging.Process.{Limits, process_partition}
use ingestkit.Messaging.Process.Durable.{progress, Durable, Safe, All-earlier}
use ingestkit.Messaging.Process.Outcome.{Advanced, Halted}
use ingestkit.Messaging.Process.Safety.{process_partition_lem}
use ingestkit.Messaging.Delivery.{Key, InsertsNew, Lost, Step, ended, killed, Reach, here, next}
use ingestkit.Messaging.Delivery.Stored.{Delivered, Durable-Delivered}
use ingestkit.Messaging.Process.Undisturbed.{Undisturbed, Post-returned, process_partition-Returns}

module _ {E : Type 0} (decode : Bytes → Result E Envelope) where
  -- What held of a trace held of its beginning.
  Safe-append :
      (size : ℕ) (later h : List Effect) → Safe decode size (later ++ h) → Safe decode size h
  Safe-append size [] h s = s
  Safe-append size (wrote es b ∷ later) h s = Safe-append size later h s.2
  Safe-append size (committed rs b ∷ later) h s = Safe-append size later h s.1
  Safe-append size (quarantined r b ∷ later) h s = Safe-append size later h s.1
  Safe-append size (notified kind r b ∷ later) h s = Safe-append size later h s
  Safe-append size (observed_write es ∷ later) h s = Safe-append size later h s
  Safe-append size (observed_retry ∷ later) h s = Safe-append size later h s
  Safe-append size (allowed_rebalance ∷ later) h s = Safe-append size later h s

  All-later :
      (x : Effect) (h : List Effect) (rs : List KafkaRecord)
      → All (λ r. Durable decode r h) rs
      → All (λ r. Durable decode r (x ∷ h)) rs
  All-later x h rs a = All-earlier decode rs x h a

  module _ (took : List Effect → Bool) where
    -- The position of the group only goes on.
    progress-append :
        (later h : List Effect)
        → (more : List KafkaRecord) × (progress took (later ++ h) ≡ progress took h ++ more)
    unfolding progress
    progress-append [] h = ([], sym (append-nil _))
    progress-append (committed rs b ∷ later) h =
        let (more, e) = progress-append later h in
        elim (Bool-cases (b || took (later ++ h))) [
          | inl p ↦
              (more ++ rs, rw p (ap (λ x. x ++ rs) e ∙ append_assoc (progress took h) more rs))
          | inr p ↦ (more, rw p e)
        ]
    progress-append (wrote es b ∷ later) h = progress-append later h
    progress-append (quarantined r b ∷ later) h = progress-append later h
    progress-append (notified kind r b ∷ later) h = progress-append later h
    progress-append (observed_write es ∷ later) h = progress-append later h
    progress-append (observed_retry ∷ later) h = progress-append later h
    progress-append (allowed_rebalance ∷ later) h = progress-append later h

    -- What the broker has passed is durable.
    progress-Durable :
        (size : ℕ) (h : List Effect)
        → Safe decode size h
        → All (λ r. Durable decode r h) (progress took h)
    unfolding progress
    progress-Durable size [] s = tt
    progress-Durable size (committed rs b ∷ h) s = elim (Bool-cases (b || took h)) [
      | inl p ↦ rw p (
          All-append _ (progress took h) rs (All-later _ h _ (progress-Durable size h s.1))
            (All-later _ h rs s.0))
      | inr p ↦ rw p (All-later _ h _ (progress-Durable size h s.1))
    ]
    progress-Durable size (wrote es b ∷ h) s = All-later _ h _ (progress-Durable size h s.2)
    progress-Durable size (quarantined r b ∷ h) s = All-later _ h _ (progress-Durable size h s.1)
    progress-Durable size (notified kind r b ∷ h) s = All-later _ h _ (progress-Durable size h s)
    progress-Durable size (observed_write es ∷ h) s = All-later _ h _ (progress-Durable size h s)
    progress-Durable size (observed_retry ∷ h) s = All-later _ h _ (progress-Durable size h s)
    progress-Durable size (allowed_rebalance ∷ h) s = All-later _ h _ (progress-Durable size h s)

    module _ (limits : Limits) (b : 1 ≤ limits.backoff_min) (room : 0 < limits.batch_size)
        (log : List KafkaRecord) where
      -- The broker has passed a first part of the partition, and only durable records.
      pub record OnTrack (h : List Effect) : Type 0 where
        pub safe : Safe decode limits.batch_size h
        pub ahead : List KafkaRecord
        pub split : progress took h ++ ahead ≡ log

      OnTrack-append : (later h : List Effect) → OnTrack (later ++ h) → OnTrack h
      OnTrack-append later h t =
          let (more, e) = progress-append later h in
          record {
            safe = Safe-append limits.batch_size later h t.safe;
            ahead = more ++ t.ahead;
            split = sym (append_assoc _ more t.ahead) ∙ ap (λ x. x ++ t.ahead) (sym e) ∙ t.split;
          }

      worked :
          (env : Env) (w : World) (rs rest : List KafkaRecord)
          (out : Result Failure (Unit {0}) × World)
          → progress took w.trace ++ (rs ++ rest) ≡ log
          → Post
              (λ _ w'. Advanced decode took env limits w rs w')
              (Halted decode took env limits w rs)
              out
          → OnTrack out.1.trace
      worked env w rs rest out e (returned a) = record {
        safe = a.0;
        ahead = rest;
        split = ap (λ x. x ++ rest) a.1 ∙ append_assoc _ rs rest ∙ e;
      }
      worked env w rs rest out e (failed h) = record {
        safe = h.safe;
        ahead = h.rest ++ rest;
        split =
            ap (λ x. x ++ (h.rest ++ rest)) h.committed_first
            ∙ append_assoc _ h.done (h.rest ++ rest)
            ∙ ap (λ x. progress took w.trace ++ x)
                (sym (append_assoc h.done h.rest rest) ∙ ap (λ x. x ++ rest) h.split)
            ∙ e;
      }

      partition-OnTrack :
          (env : Env) (w : World) (rs rest : List KafkaRecord)
          → progress took w.trace ++ (rs ++ rest) ≡ log
          → OnTrack w.trace
          → OnTrack (process_partition env limits decode rs w).1.trace
      partition-OnTrack env w rs rest e t =
          worked env w rs rest _ e (process_partition_lem decode took env limits b room rs w t.safe)

module _ (lost : Lost) {E : Type 0} (decode : Bytes → Result E Envelope) (limits : Limits)
    (b : 1 ≤ limits.backoff_min) (room : 0 < limits.batch_size) (log : List KafkaRecord) where
  abbrev Tracked : World → Type 0
  Tracked w = OnTrack decode lost.commits limits b room log w.trace

  Step-OnTrack : {w w' : World} → Step lost decode limits log w w' → Tracked w → Tracked w'
  Step-OnTrack (ended env rs rest e) t =
      partition-OnTrack decode lost.commits limits b room log env _ rs rest e t
  Step-OnTrack {w} (killed env rs rest done undone w' e f g) t = rw g (
      OnTrack-append decode lost.commits limits b room log undone _
        (rw f at (partition-OnTrack decode lost.commits limits b room log env w rs rest e t)))

  Reach-OnTrack : {w w' : World} → Reach lost decode limits log w w' → Tracked w → Tracked w'
  Reach-OnTrack here t = t
  Reach-OnTrack (next r s) t = Step-OnTrack s (Reach-OnTrack r t)

  module _ {T : Type 0} (find : Key → T → Option Envelope) (insert_rows : List Envelope → T → T)
      (empty : T) (new : InsertsNew find insert_rows)
      (none_yet : (k : Key) → find k empty ≡ none) where
    abbrev pub IsDelivered : List Effect → KafkaRecord → Type 0
    IsDelivered h r = Delivered lost find insert_rows empty new none_yet decode h r

    delivered :
        (h : List Effect) (rs : List KafkaRecord)
        → All (λ r. Durable decode r h) rs
        → All (IsDelivered h) rs
    delivered h [] a = tt
    delivered h (r ∷ rs) a = (
      Durable-Delivered lost find insert_rows empty new none_yet decode h r a.0,
      delivered h rs a.1,
    )

    pub OnTrack-IsDelivered :
        (h : List Effect)
        → OnTrack decode lost.commits limits b room log h
        → All (IsDelivered h) (progress lost.commits h)
    OnTrack-IsDelivered h t =
        delivered h _ (progress-Durable decode lost.commits limits.batch_size h t.safe)

    module _ (start w : World) (fresh : start.trace ≡ [])
        (r : Reach lost decode limits log start w) where
      pub tracked : OnTrack decode lost.commits limits b room log w.trace
      unfolding progress
      tracked = Reach-OnTrack r (rw fresh (record { safe = tt; ahead = log; split = refl }))

      -- However many processes have worked on a partition, wherever each was killed or failed, and
      -- whatever writes and commits were made that reported an error: the broker has passed a first
      -- part of the partition, and every record of it is delivered.
      pub Reach-IsDelivered :
          (ahead : List KafkaRecord) × (progress lost.commits w.trace ++ ahead ≡ log)
          × All (IsDelivered w.trace) (progress lost.commits w.trace)
      Reach-IsDelivered = (tracked.ahead, tracked.split, OnTrack-IsDelivered w.trace tracked)

      -- After any such history a process to which the other systems answer well returns, and then
      -- the whole partition is passed and delivered.
      pub Undisturbed-IsDelivered :
          (env : Env) (rs : List KafkaRecord)
          → Undisturbed env
          → progress lost.commits w.trace ++ rs ≡ log
          → ((process_partition env limits decode rs w).0 ≡ ok tt)
            × (progress lost.commits (process_partition env limits decode rs w).1.trace ≡ log)
            × All (IsDelivered (process_partition env limits decode rs w).1.trace) log
      Undisturbed-IsDelivered env rs u e =
          let (done, a) =
            Post-returned (process_partition env limits decode rs w)
              (process_partition-Returns env limits u decode rs w)
              (process_partition_lem decode lost.commits env limits b room rs w tracked.safe) in
          let all = a.1 ∙ e in
          let safe =
            progress-Durable decode lost.commits limits.batch_size
              (process_partition env limits decode rs w).1.trace a.0 in
          (done, all, delivered _ log (rw all at safe))
