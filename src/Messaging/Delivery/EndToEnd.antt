-- ===== src/Messaging/Delivery/EndToEnd.antt =====
-- An event from the call of `Publish` that acknowledges it to its row in the table.
use mathlib.Core.List.{Memᴰ}
use mathlib.Core.Path.{subst}
use ingestkit.Prelude.{
  ℕ, ◌≡◌, ◌≤◌, ◌<◌, ap, sym, ◌∙◌, true, Option, none, some, List, [], ◌∷◌, Bytes, Result, ok, err,
  All, length, arith,
}
use ingestkit.Event.{
  Envelope, Json, Error, utc, valid_unicode_json, encode_envelope, decode_envelope,
}
use ingestkit.Event.Laws.Broker.{SameEvent, encode_parts, decode-encode_envelope}
use ingestkit.Messaging.Records.{KafkaRecord}
use ingestkit.Messaging.World.{
  Effect, wrote, committed, quarantined, notified, observed_write, observed_retry,
  allowed_rebalance, World,
}
use ingestkit.Messaging.Process.{Limits}
use ingestkit.Messaging.Process.Durable.{progress, Safe}
use ingestkit.Messaging.Publisher.{Broker, published, record_of, publish_events}
use ingestkit.Messaging.Publisher.Answers.{Encoded, publish_events-published}
use ingestkit.Messaging.Delivery.{Key, key_of, InsertsNew, Lost, table, Reach}
use ingestkit.Messaging.Delivery.Stored.{Delivered, in_table, in_quarantine}
use ingestkit.Messaging.Delivery.AtLeastOnce.{OnTrack, tracked, OnTrack-IsDelivered}

module _ {E : Type 0} (decode : Bytes → Result E Envelope) (size : ℕ) where
  -- Only a record that does not decode is set aside.
  quarantined-err :
      (r : KafkaRecord) (h : List Effect)
      → Safe decode size h
      → Memᴰ (quarantined r true) h
      → (x : E) × (decode r.value ≡ err x)
  quarantined-err r [] s m = elim m [ ]
  quarantined-err r (quarantined q b ∷ h) s (Memᴰ.head e) = let (x, p) = s.0 in (x, cc (e, p))
  quarantined-err r (quarantined q b ∷ h) s (Memᴰ.tail m) = quarantined-err r h s.1 m
  quarantined-err r (wrote es b ∷ h) s (Memᴰ.head e) = absurd (ground arith)
  quarantined-err r (wrote es b ∷ h) s (Memᴰ.tail m) = quarantined-err r h s.2 m
  quarantined-err r (committed rs b ∷ h) s (Memᴰ.head e) = absurd (ground arith)
  quarantined-err r (committed rs b ∷ h) s (Memᴰ.tail m) = quarantined-err r h s.1 m
  quarantined-err r (notified kind q b ∷ h) s (Memᴰ.head e) = absurd (ground arith)
  quarantined-err r (notified kind q b ∷ h) s (Memᴰ.tail m) = quarantined-err r h s m
  quarantined-err r (observed_write es ∷ h) s (Memᴰ.head e) = absurd (ground arith)
  quarantined-err r (observed_write es ∷ h) s (Memᴰ.tail m) = quarantined-err r h s m
  quarantined-err r (observed_retry ∷ h) s (Memᴰ.head e) = absurd (ground arith)
  quarantined-err r (observed_retry ∷ h) s (Memᴰ.tail m) = quarantined-err r h s m
  quarantined-err r (allowed_rebalance ∷ h) s (Memᴰ.head e) = absurd (ground arith)
  quarantined-err r (allowed_rebalance ∷ h) s (Memᴰ.tail m) = quarantined-err r h s m

All-Mem :
    (P : KafkaRecord → Type 0) (r : KafkaRecord) (rs : List KafkaRecord)
    → All P rs
    → Memᴰ r rs
    → P r
All-Mem P r [] a m = elim m [ ]
All-Mem P r (x ∷ rs) a (Memᴰ.head e) = subst P (sym e) a.0
All-Mem P r (x ∷ rs) a (Memᴰ.tail m) = All-Mem P r rs a.1 m

one_result : (r : Result Error Envelope) (a b : Envelope) → r ≡ ok a → r ≡ ok b → a ≡ b
one_result r a b e f = cc (e, f)

-- What encoding/json does with one envelope whose texts it keeps: it reads back what it has written,
-- as one document of text.
abbrev pub ReadsBack : Json → Envelope → Type 0
ReadsBack j e =
    (raw : Bytes)
    → j.encode_envelope e ≡ some raw
    → (d : Envelope) × (rest : Bytes) × (j.decode_envelope raw ≡ some (d, rest))
      × (j.at_end rest ≡ true)
      × (valid_unicode_json raw ≡ true)
      × SameEvent j e d

-- The broker keeps the value of a record, in one of those that the group has passed.
pub data Passed (value : Bytes) (passed : List KafkaRecord) : Type 0 where
  passed_as : {q : KafkaRecord} → Memᴰ q passed → q.value ≡ value → Passed value passed

same_key :
    {j : Json} (e d : Envelope)
    → SameEvent j e d
    → key_of (record d { received_at = utc d.received_at }) ≡ key_of e
same_key e d same = cc (same.tenant_id, same.event_id)

module _ (j : Json) (lost : Lost) (limits : Limits) (b : 1 ≤ limits.backoff_min)
    (room : 0 < limits.batch_size) (log : List KafkaRecord) {T : Type 0}
    (find : Key → T → Option Envelope) (insert_rows : List Envelope → T → T) (empty : T)
    (new : InsertsNew find insert_rows) (none_yet : (k : Key) → find k empty ≡ none) where
  -- A row with the key of an event.
  pub record HasRow (h : List Effect) (e : Envelope) : Type 0 where
    pub event_row : Envelope
    pub found : find (key_of e) (table lost insert_rows empty h) ≡ some event_row
    pub same : key_of event_row ≡ key_of e

  decoded-HasRow :
      (h : List Effect) (r : KafkaRecord) (e d : Envelope)
      → Safe (decode_envelope j) limits.batch_size h
      → Delivered lost find insert_rows empty new none_yet (decode_envelope j) h r
      → decode_envelope j r.value ≡ ok d
      → key_of d ≡ key_of e
      → HasRow h e
  decoded-HasRow h r e d s (in_table {e = x} {f = f} q g k) p i =
      let same : key_of x ≡ key_of e = ap key_of (one_result _ x d q p) ∙ i in
      record {
        event_row = f;
        found = subst (λ key. find key (table lost insert_rows empty h) ≡ some f) same g;
        same = k ∙ same;
      }
  decoded-HasRow h r e d s (in_quarantine m) p i =
      let (x, q) = quarantined-err (decode_envelope j) limits.batch_size r h s m in
      absurd (cc (p, q))

  module _ (start w : World) (fresh : start.trace ≡ [])
      (r : Reach lost (decode_envelope j) limits log start w) where
    track : OnTrack (decode_envelope j) lost.commits limits b room log w.trace
    track =
        tracked lost (decode_envelope j) limits b room log find insert_rows empty new none_yet start
          w fresh r

    event-HasRow :
        (e : Envelope) (raw : Bytes)
        → ReadsBack j e
        → encode_envelope j e ≡ ok raw
        → Passed raw (progress lost.commits w.trace)
        → HasRow w.trace e
    event-HasRow e raw reads p (passed_as {q = q} m v) =
        let (accepted, a, written, fits) = encode_parts j e raw p in
        let (d, rest, read, done, text, same) = reads raw written in
        let all =
          OnTrack-IsDelivered lost (decode_envelope j) limits b room log find insert_rows empty new
            none_yet w.trace track in
        decoded-HasRow w.trace q e (record d { received_at = utc d.received_at }) track.safe
          (All-Mem _ q _ all m) (rw v (decode-encode_envelope j e d raw rest read done text same p))
          (same_key e d same)

    Encoded-HasRow :
        (uuid_string : ℕ → Bytes) (topic : Bytes) (es : List Envelope) (rs : List KafkaRecord)
        → All (ReadsBack j) es
        → Encoded j uuid_string topic es rs
        → All (λ x. Passed x.value (progress lost.commits w.trace)) rs
        → All (HasRow w.trace) es
    unfolding record_of
    Encoded-HasRow uuid_string topic [] [] k n a = tt
    Encoded-HasRow uuid_string topic [] (x ∷ rs) k n a = absurd n
    Encoded-HasRow uuid_string topic (e ∷ es) [] k n a = absurd n
    Encoded-HasRow uuid_string topic (e ∷ es) (x ∷ rs) k n a =
        let (raw, p, q) = n.0 in
        (
          event-HasRow e raw k.0 p
              (subst (λ v. Passed v (progress lost.commits w.trace)) (ap (λ y. y.value) q) a.0),
          Encoded-HasRow uuid_string topic es rs k.1 n.1 a.1,
        )

    -- For events that encoding/json reads back from what it has written of them: if `Publish` has returned without an
    -- error, and the broker has passed, in one partition, the values of the records that it has
    -- acknowledged, then the table has a row with tenant and identifier of each of the events,
    -- however the processes behind the broker have come and gone.
    pub published-HasRow :
        (uuid_string : ℕ → Bytes) (topic : Bytes) (broker : Broker) (es : List Envelope)
        (rs : List KafkaRecord)
        → All (ReadsBack j) es
        → ((i : ℕ) → i < length rs → Memᴰ i (broker.order (length rs)))
        → publish_events j uuid_string topic broker es ≡ published rs
        → All (λ x. Passed x.value (progress lost.commits w.trace)) rs
        → All (HasRow w.trace) es
    published-HasRow uuid_string topic broker es rs reads each h a =
        Encoded-HasRow uuid_string topic es rs reads
          (publish_events-published j uuid_string topic broker es rs each h).0 a
