-- ===== src/Runenv/Demo/Completion.antt =====
-- What a demo without an error has shown.
use ingestkit.Prelude.{ℕ, ◌≡◌, some, List, Bytes, min, ok, if◌then◌else◌}
use ingestkit.Prelude.Counts.{count}
use ingestkit.Runenv.Shell.{World, Os}
use ingestkit.Runenv.Stack.{Stack}
use ingestkit.Runenv.Stack.Ownership.{After, Operation, stopping, destroying, command_of}
use ingestkit.Runenv.Demo.Run.{DemoOptions, DemoReport, DemoMachine}

abbrev Anything : {A : Type 0} → A → World → Type 0
Anything a w = Unit

-- Every accepted identifier is stored once, and no other.
abbrev pub IsReconciled : List ℕ → List ℕ → Type 0
IsReconciled ids stored = (id : ℕ) → count id stored ≡ min 1 (count id ids)

module _ (os : Os) (d : DemoMachine) where
  -- The service has answered with 202 and these identifiers.
  abbrev pub IsAcknowledged : List ℕ → Type 0
  IsAcknowledged ids = (tick : ℕ) × (d.reply tick ≡ ok (202, some ids))

  -- A poll of the store has given these identifiers.
  abbrev pub IsStored : List ℕ → Type 0
  IsStored ids = (tick : ℕ) × (d.rows tick ≡ some ids)

  -- The identifiers of the example were acknowledged with 202, a poll of the store has given the
  -- stored ones, and each of the first is among them once, and no other.
  abbrev pub IsComplete : DemoReport → Type 0
  IsComplete report =
      ((tick : ℕ) × (d.events tick ≡ ok report.accepted))
      × IsAcknowledged report.accepted
      × IsStored report.stored
      × IsReconciled report.accepted report.stored

-- The operation with which a demo leaves its project.
abbrev pub leaving : DemoOptions → Operation
leaving o = if o.cleanup then destroying else stopping

module _ (os : Os) (d : DemoMachine) (s : Stack) (o : DemoOptions) where
  -- The project was found to be the run's own, and then stopped or destroyed.
  abbrev pub Left : Type 0
  Left =
      (w : World) × ((w' : World) × ((out : Bytes) × After os s (command_of (leaving o)) w w'
            (ok out)))
