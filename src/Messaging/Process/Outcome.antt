-- ===== src/Messaging/Process/Outcome.antt =====
-- What a part of a partition leaves behind, and how the parts go together.
use ingestkit.Prelude.{
  ◌<◌, ◌≡◌, refl, Bool, true, false, if◌then◌else◌, sym, ap, ◌∙◌, List, [], ◌∷◌, ◌++◌, append_assoc,
  append-nil, Bytes, Result, length,
}
use ingestkit.Event.{Envelope}
use ingestkit.Messaging.Records.{KafkaRecord}
use ingestkit.Messaging.World.{Effect, Failure, out_of_fuel, World, Env}
use ingestkit.Messaging.Process.{Limits}
use ingestkit.Messaging.Process.Durable.{progress, Safe, Decoded}

module _ {E : Type 0} (decode : Bytes → Result E Envelope) (took : List Effect → Bool) (env : Env)
    (limits : Limits) where
  abbrev pub Kept : World → Failure → World → Type 0
  Kept w f w' =
      Safe decode limits.batch_size w'.trace
      × (progress took w'.trace ≡ progress took w.trace)
      × (f ≡ out_of_fuel → ⊥)

  abbrev pub Advanced : World → List KafkaRecord → World → Type 0
  Advanced w rs w' =
      Safe decode limits.batch_size w'.trace
      × (progress took w'.trace ≡ progress took w.trace ++ rs)

  -- A failure behind some of the records `rs`: those that the broker has passed come first.
  pub record Halted (w : World) (rs : List KafkaRecord) (f : Failure) (w' : World) : Type 0 where
    pub safe : Safe decode limits.batch_size w'.trace
    pub done : List KafkaRecord
    pub rest : List KafkaRecord
    pub committed_first : progress took w'.trace ≡ progress took w.trace ++ done
    pub split : done ++ rest ≡ rs
    pub in_fuel : f ≡ out_of_fuel → ⊥

  pub Kept-Halted :
      (w : World) (rs : List KafkaRecord) (f : Failure) (w' : World)
      → Kept w f w'
      → Halted w rs f w'
  Kept-Halted w rs f w' k = record {
    safe = k.0;
    done = [];
    rest = rs;
    committed_first = k.1 ∙ sym (append-nil _);
    split = refl;
    in_fuel = k.2;
  }

  -- A commit that reports an error: the broker has made it or not.
  pub uncertain :
      (b : Bool) (w : World) (rs : List KafkaRecord) (f : Failure) (w' : World)
      → Safe decode limits.batch_size w'.trace
      → progress took w'.trace ≡ (if b then progress took w.trace ++ rs else progress took w.trace)
      → (f ≡ out_of_fuel → ⊥)
      → Halted w rs f w'
  uncertain true w rs f w' s e n = record {
    safe = s;
    done = rs;
    rest = [];
    committed_first = e;
    split = append-nil rs;
    in_fuel = n;
  }
  uncertain false w rs f w' s e n = Kept-Halted w rs f w' (s, e, n)

  -- A failure behind records that the broker has passed.
  pub Halted-after :
      (w w1 w2 : World) (rs rest : List KafkaRecord) (f : Failure)
      → progress took w1.trace ≡ progress took w.trace ++ rs
      → Halted w1 rest f w2
      → Halted w (rs ++ rest) f w2
  Halted-after w w1 w2 rs rest f e h = record {
    safe = h.safe;
    done = rs ++ h.done;
    rest = h.rest;
    committed_first =
        h.committed_first
        ∙ ap (λ x. x ++ h.done) e
        ∙ append_assoc (progress took w.trace) rs h.done;
    split = append_assoc rs h.done h.rest ∙ ap (λ x. rs ++ x) h.split;
    in_fuel = h.in_fuel;
  }

  -- What an action leaves that no commit comes before.
  pub Halted-Kept :
      (w w1 w2 : World) (rs : List KafkaRecord) (f : Failure)
      → progress took w1.trace ≡ progress took w.trace
      → Halted w1 rs f w2
      → Halted w rs f w2
  Halted-Kept w w1 w2 rs f e h = record {
    safe = h.safe;
    done = h.done;
    rest = h.rest;
    committed_first = h.committed_first ∙ ap (λ x. x ++ h.done) e;
    split = h.split;
    in_fuel = h.in_fuel;
  }

  pub source_done :
      (r : KafkaRecord) (source : List KafkaRecord) (w w' : World) (f : Failure)
      → Safe decode limits.batch_size w'.trace
      → progress took w'.trace ≡ progress took w.trace ++ source
      → (f ≡ out_of_fuel → ⊥)
      → Halted w (source ++ r ∷ []) f w'
  source_done r source w w' f s e n = record {
    safe = s;
    done = source;
    rest = r ∷ [];
    committed_first = e;
    split = refl;
    in_fuel = n;
  }

  -- The lists with which the loop goes on behind the records `rs`: decoded records, fewer than a
  -- batch, the last of `rs`; those before them are committed.
  pub record Goes (w : World) (rs : List KafkaRecord) (pending : List Envelope × List KafkaRecord)
      (w' : World) : Type 0 where
    pub safe : Safe decode limits.batch_size w'.trace
    pub decoded : Decoded decode pending.1 pending.0
    pub room : length pending.1 < limits.batch_size
    pub done : List KafkaRecord
    pub committed_first : progress took w'.trace ≡ progress took w.trace ++ done
    pub split : done ++ pending.1 ≡ rs

  pub all_committed :
      (w w' : World) (rs : List KafkaRecord)
      → 0 < limits.batch_size
      → Advanced w rs w'
      → Goes w rs ([], []) w'
  all_committed w w' rs l a = record {
    safe = a.0;
    decoded = tt;
    room = l;
    done = rs;
    committed_first = a.1;
    split = append-nil rs;
  }

  -- A step from `w` to `w1` and on to `w2`, over the records before and behind `rs`.
  pub Advanced-Goes :
      (w w' w2 : World) (rs rest : List KafkaRecord) (pending : List Envelope × List KafkaRecord)
      → Goes w rs pending w'
      → Advanced w' (pending.1 ++ rest) w2
      → Advanced w (rs ++ rest) w2
  Advanced-Goes w w' w2 rs rest pending g a = (
    a.0,
    a.1
        ∙ ap (λ h. h ++ (pending.1 ++ rest)) g.committed_first
        ∙ append_assoc (progress took w.trace) g.done (pending.1 ++ rest)
        ∙ ap (λ x. progress took w.trace ++ x)
            (sym (append_assoc g.done pending.1 rest) ∙ ap (λ x. x ++ rest) g.split),
  )

  pub Halted-Goes :
      (w w' w2 : World) (rs rest : List KafkaRecord) (pending : List Envelope × List KafkaRecord)
      (f : Failure)
      → Goes w rs pending w'
      → Halted w' (pending.1 ++ rest) f w2
      → Halted w (rs ++ rest) f w2
  Halted-Goes w w' w2 rs rest pending f g h = record {
    safe = h.safe;
    done = g.done ++ h.done;
    rest = h.rest;
    committed_first =
        h.committed_first
        ∙ ap (λ x. x ++ h.done) g.committed_first
        ∙ append_assoc (progress took w.trace) g.done h.done;
    split =
        append_assoc g.done h.done h.rest
        ∙ ap (λ x. g.done ++ x) h.split
        ∙ sym (append_assoc g.done pending.1 rest)
        ∙ ap (λ x. x ++ rest) g.split;
    in_fuel = h.in_fuel;
  }

  pub Halted-append :
      (w w' : World) (rs rest : List KafkaRecord) (f : Failure)
      → Halted w rs f w'
      → Halted w (rs ++ rest) f w'
  Halted-append w w' rs rest f h = record {
    safe = h.safe;
    done = h.done;
    rest = h.rest ++ rest;
    committed_first = h.committed_first;
    split = sym (append_assoc h.done h.rest rest) ∙ ap (λ x. x ++ rest) h.split;
    in_fuel = h.in_fuel;
  }

  pub regroup :
      (source : List KafkaRecord) (r : KafkaRecord) (rs : List KafkaRecord)
      → (source ++ r ∷ []) ++ rs ≡ source ++ r ∷ rs
  regroup source r rs = append_assoc source (r ∷ []) rs
