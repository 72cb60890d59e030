-- ===== src/Persistence.antt =====
-- internal/persistence/events.go: one insert statement for a batch, its placeholders and its
-- arguments. The pool's `Exec` is a parameter: the number of rows that it has inserted, or an error.
pub mod Binding
use ingestkit.Prelude.{
  ℕ, zero, suc, ◌+◌, ◌*◌, ◌≡◌, Bool, true, false, List, [], ◌∷◌, ◌++◌, Bytes, ℤ, pos, sub_ℕ, length,
  Result, ok, err, ◌>>=◌,
}
use ingestkit.Event.{Envelope, Time}

-- The arguments of the statement, by their Go types.
pub data Arg : Type 0 where
  text : Bytes → Arg
  instant : Time → Arg
  bytes : Bytes → Arg

-- The columns of the table that an insert names.
pub data Column : Type 0 where
  tenant_id event_id event_type occurred_at received_at payload : Column

-- The statement: the columns that it names, the numbers of the placeholders of each of its rows, and
-- its arguments.
pub record Statement : Type 0 where
  pub columns : List Column
  pub values : List (List ℕ)
  pub args : List Arg

-- Inserted and duplicate rows; the driver's count is not checked, so the second may be negative.
pub record WriteResult : Type 0 where
  pub inserted : ℕ
  pub duplicates : ℤ

-- The six placeholders of the event at place `i`.
abbrev pub row_places : ℕ → List ℕ
row_places i = let n = i * 6 in (n + 1) ∷ (n + 2) ∷ (n + 3) ∷ (n + 4) ∷ (n + 5) ∷ (n + 6) ∷ []

-- `INSERT INTO ingestkit.events(...)`
unfoldable pub insert_columns : List Column
insert_columns = tenant_id ∷ event_id ∷ event_type ∷ occurred_at ∷ received_at ∷ payload ∷ []

module _ (uuid_string : ℕ → Bytes) where
  -- The arguments that are appended for an event.
  unfoldable pub row : Envelope → List Arg
  row e =
      text e.tenant_id
      ∷ text (uuid_string e.event_id)
      ∷ text e.event_type
      ∷ instant e.occurred_at
      ∷ instant e.received_at
      ∷ bytes e.payload
      ∷ []

  -- The loop over the events from place `i`.
  unfoldable pub rows_from : ℕ → List Envelope → Statement
  unfolding row
  rows_from i [] = record { columns = insert_columns; values = []; args = [] }
  rows_from i (e ∷ es) =
      let rest = rows_from (suc i) es in
      record {
        columns = insert_columns;
        values = row_places i ∷ rest.values;
        args = row e ++ rest.args;
      }

  unfoldable pub write_batch {ℓ} :
      {E : Type ℓ} → (Statement → Result E ℕ) → List Envelope → Result E WriteResult
  unfolding rows_from
  write_batch exec [] = ok (record { inserted = 0; duplicates = pos 0 })
  write_batch exec (e ∷ es) = do
    affected ← exec (rows_from 0 (e ∷ es))
    ok (record { inserted = affected; duplicates = sub_ℕ (length (e ∷ es)) affected })
