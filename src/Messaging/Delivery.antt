-- ===== src/Messaging/Delivery.antt =====
-- internal/messaging/process.go and internal/persistence/events.go together: a partition on which
-- one process after the other works, each from the position that the broker has for the group. The
-- table of events is a parameter, with what PostgreSQL documents of an insert that does nothing on
-- a conflict; so are the outcomes of writes and commits that report an error.
pub mod Stored
pub mod AtLeastOnce
pub mod EndToEnd
use ingestkit.Prelude.{
  ℕ, ◌==◌, ◌≡◌, ◌++◌, ◌&&◌, ◌||◌, Bool, Option, none, some, List, [], ◌∷◌, Bytes, bytes_eq, Result,
  if◌then◌else◌,
}
use ingestkit.Event.{Envelope}
use ingestkit.Messaging.Records.{KafkaRecord}
use ingestkit.Messaging.World.{Effect, wrote, World, Env}
use ingestkit.Messaging.Process.{Limits, process_partition}
use ingestkit.Messaging.Process.Durable.{progress}

-- The unique constraint of the table: tenant and identifier.
abbrev pub Key : Type 0
Key = Bytes × ℕ

abbrev pub key_of : Envelope → Key
key_of e = (e.tenant_id, e.event_id)

unfoldable pub key_eq : Key → Key → Bool
key_eq (t, i) (u, j) = bytes_eq t u && (i == j)

-- The first event with a key.
unfoldable pub first : Key → List Envelope → Option Envelope
first k [] = none
first k (e ∷ es) = let later = first k es in if key_eq (key_of e) k then some e else later

-- `INSERT ... ON CONFLICT (tenant_id, event_id) DO NOTHING`: a row that is there stays as it is, and a
-- key that has none gets that of its first event.
pub record InsertsNew {T : Type 0} (find : Key → T → Option Envelope)
    (insert_rows : List Envelope → T → T) : Type 0 where
  pub kept :
      (k : Key) (es : List Envelope) (t : T) (e : Envelope)
      → find k t ≡ some e
      → find k (insert_rows es t) ≡ some e
  pub added :
      (k : Key) (es : List Envelope) (t : T)
      → find k t ≡ none
      → find k (insert_rows es t) ≡ first k es

-- Writes and commits that report an error, but have been made, by the effects before them.
pub record Lost : Type 0 where
  pub writes : List Effect → Bool
  pub commits : List Effect → Bool

module _ (lost : Lost) where
  -- The events of the writes that were made, oldest first.
  unfoldable pub written : List Effect → List Envelope
  written [] = []
  written (wrote es b ∷ h) =
      let before = written h in if b || lost.writes h then before ++ es else before
  written (_ ∷ h) = written h

  -- The table after the effects, from an empty one.
  unfoldable pub table : {T : Type 0} → (List Envelope → T → T) → T → List Effect → T
  table insert_rows empty [] = empty
  table insert_rows empty (wrote es b ∷ h) =
      let t = table insert_rows empty h in if b || lost.writes h then insert_rows es t else t
  table insert_rows empty (_ ∷ h) = table insert_rows empty h

  -- A process that works on records from the position of the group on: it ends by itself, or is
  -- killed at some point, with what it has done by then.
  module _ {E : Type 0} (decode : Bytes → Result E Envelope) (limits : Limits)
      (log : List KafkaRecord) where
    pub data Step (w : World) : World → Type 0 where
      ended :
          (env : Env) (rs rest : List KafkaRecord)
          → progress lost.commits w.trace ++ (rs ++ rest) ≡ log
          → Step w (process_partition env limits decode rs w).1
      killed :
          (env : Env) (rs rest : List KafkaRecord) (done undone : List Effect) (w' : World)
          → progress lost.commits w.trace ++ (rs ++ rest) ≡ log
          → (process_partition env limits decode rs w).1.trace ≡ undone ++ (done ++ w.trace)
          → w'.trace ≡ done ++ w.trace
          → Step w w'

    pub data Reach (w : World) : World → Type 0 where
      here : Reach w w
      next : {u v : World} → Reach w u → Step u v → Reach w v
