-- ===== src/Messaging/Process/Durable.antt =====
-- What is safe to commit on a trace of internal/messaging/process.go, and the progress on it.
use mathlib.Core.List.{Memᴰ}
use ingestkit.Prelude.{
  ℕ, suc, ◌≤◌, ◌≡◌, refl, ap, Bool, true, ◌||◌, if◌then◌else◌, List, [], ◌∷◌, ◌++◌, Bytes, Result,
  ok, err, length, All,
}
use ingestkit.Event.{Envelope}
use ingestkit.Messaging.Records.{KafkaRecord}
use ingestkit.Messaging.World.{
  Effect, wrote, committed, quarantined, Failure, out_of_fuel, World, Env,
}
use ingestkit.Messaging.Process.{Limits}
use ingestkit.Messaging.Process.Retry.{
  Failing, start, again, Persisted, GaveUp, before_attempt, after_attempt, exhausted,
}

-- The records over which the broker has moved the group, oldest first. A commit that reports an error
-- may have been made all the same, which `took` says by the effects before it.
unfoldable pub progress : (List Effect → Bool) → List Effect → List KafkaRecord
progress took [] = []
progress took (committed rs b ∷ h) =
    let before = progress took h in if b || took h then before ++ rs else before
progress took (_ ∷ h) = progress took h

module _ {E : Type 0} (decode : Bytes → Result E Envelope) where
  -- A record is safe to commit: its event is part of a successful write, or the record stands in
  -- the quarantine.
  pub data Durable (r : KafkaRecord) : List Effect → Type 0 where
    stored :
        {events : List Envelope} {h : List Effect} {e : Envelope}
        → decode r.value ≡ ok e
        → Memᴰ e events
        → Durable r (wrote events true ∷ h)
    set_aside : {h : List Effect} → Durable r (quarantined r true ∷ h)
    earlier : {f : Effect} {h : List Effect} → Durable r h → Durable r (f ∷ h)

  -- Every commit is of durable records, every write is of at least one and at most `size` events,
  -- and only a record that does not decode goes to the quarantine.
  abbrev pub Safe : ℕ → List Effect → Type 0
  Safe size [] = Unit
  Safe size (committed rs b ∷ h) = All (λ r. Durable r h) rs × Safe size h
  Safe size (wrote events b ∷ h) = (1 ≤ length events) × (length events ≤ size) × Safe size h
  Safe size (quarantined r b ∷ h) = ((e : E) × (decode r.value ≡ err e)) × Safe size h
  Safe size (_ ∷ h) = Safe size h

  -- The events are those of the records, in their order.
  abbrev pub Decoded : List KafkaRecord → List Envelope → Type 0
  Decoded [] [] = Unit
  Decoded (r ∷ rs) (e ∷ es) = (decode r.value ≡ ok e) × Decoded rs es
  Decoded _ _ = ⊥

  pub length-Decoded :
      (rs : List KafkaRecord) (es : List Envelope) → Decoded rs es → length es ≡ length rs
  length-Decoded [] [] d = refl
  length-Decoded [] (e ∷ es) d = absurd d
  length-Decoded (r ∷ rs) [] d = absurd d
  length-Decoded (r ∷ rs) (e ∷ es) d = ap suc (length-Decoded rs es d.1)

  pub Decoded-concat :
      (rs : List KafkaRecord) (es : List Envelope) (r : KafkaRecord) (e : Envelope)
      → Decoded rs es
      → decode r.value ≡ ok e
      → Decoded (rs ++ r ∷ []) (es ++ e ∷ [])
  Decoded-concat [] [] r e d h = (h, tt)
  Decoded-concat [] (x ∷ es) r e d h = absurd d
  Decoded-concat (x ∷ rs) [] r e d h = absurd d
  Decoded-concat (x ∷ rs) (y ∷ es) r e d h = (d.0, Decoded-concat rs es r e d.1 h)

  -- The last write of a batch makes all its records durable.
  pub Decoded-Durable :
      (rs : List KafkaRecord) (es all : List Envelope) (h : List Effect)
      → Decoded rs es
      → ((e : Envelope) → Memᴰ e es → Memᴰ e all)
      → All (λ r. Durable r (wrote all true ∷ h)) rs
  Decoded-Durable [] [] all h d m = tt
  Decoded-Durable [] (e ∷ es) all h d m = absurd d
  Decoded-Durable (r ∷ rs) [] all h d m = absurd d
  Decoded-Durable (r ∷ rs) (e ∷ es) all h d m = (
    stored d.0 (m e (Memᴰ.head refl)),
    Decoded-Durable rs es all h d.1 (λ x i. m x (Memᴰ.tail i)),
  )

  pub All-earlier :
      (rs : List KafkaRecord) (f : Effect) (h : List Effect)
      → All (λ r. Durable r h) rs
      → All (λ r. Durable r (f ∷ h)) rs
  All-earlier [] f h a = tt
  All-earlier (r ∷ rs) f h a = (earlier a.0, All-earlier rs f h a.1)

  module _ (took : List Effect → Bool) (size : ℕ) (env : Env) (limits : Limits)
      (events : List Envelope) (source : KafkaRecord) (deadline : ℕ) (h : List Effect) where
    pub Failing-Safe :
        {backoff : ℕ} {k : List Effect}
        → 1 ≤ length events
        → length events ≤ size
        → Safe size h
        → Failing limits events source h backoff k
        → Safe size k
    Failing-Safe a b s start = s
    Failing-Safe a b s (again g) = (a, b, Failing-Safe a b s g)

    pub progress-Failing :
        {backoff : ℕ} {k : List Effect}
        → Failing limits events source h backoff k
        → progress took k ≡ progress took h
    unfolding progress
    progress-Failing start = refl
    progress-Failing (again g) = progress-Failing g

    -- What an error of `persist` leaves.
    pub GaveUp-Safe :
        {f : Failure} {w : World}
        → 1 ≤ length events
        → length events ≤ size
        → Safe size h
        → GaveUp env limits events source deadline h f w
        → Safe size w.trace × (progress took w.trace ≡ progress took h) × (f ≡ out_of_fuel → ⊥)
    unfolding progress
    GaveUp-Safe a b s (before_attempt g d) = (Failing-Safe a b s g, progress-Failing g, λ e. cc)
    GaveUp-Safe a b s (after_attempt k g e d) =
        rw e ((a, b, Failing-Safe a b s g), progress-Failing g, λ e. cc)
    GaveUp-Safe a b s (exhausted k g e d) =
        rw e ((a, b, Failing-Safe a b s g), progress-Failing g, λ e. cc)

    pub Persisted-Safe :
        {k : List Effect}
        → 1 ≤ length events
        → length events ≤ size
        → Safe size h
        → Persisted env limits events source deadline h k
        → Safe size k × (progress took k ≡ progress took h)
    unfolding progress
    Persisted-Safe a b s p =
        rw (p.shape) ((a, b, Failing-Safe a b s p.failing), progress-Failing p.failing)

    pub Persisted-Durable :
        {k : List Effect} (rs : List KafkaRecord)
        → Decoded rs events
        → Persisted env limits events source deadline h k
        → All (λ r. Durable r k) rs
    Persisted-Durable rs d p = rw (p.shape) (
        All-earlier rs _ _
          (All-earlier rs _ _ (Decoded-Durable rs events events p.before d (λ e m. m))))
