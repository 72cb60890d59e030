-- ===== src/Persistence/Binding.antt =====
-- The columns and the placeholders of an insert statement bind the arguments of the right event and column.
use ingestkit.Prelude.{
  sym, ◌∙◌, ℕ, zero, suc, ◌+◌, ◌*◌, ◌≤◌, ◌≡◌, refl, ap, Option, none, some, List, [], ◌∷◌, ◌++◌,
  append_assoc, inl, inr, Result-cases, Bytes, map, pos, leb_ℤ, Bool, true, false, if◌then◌else◌,
  ◌+ℤ◌, length, length-append, Result, ok, arith,
}
use ingestkit.Event.{Envelope}
use ingestkit.Persistence.{
  Arg, text, instant, bytes, Column, tenant_id, event_id, event_type, occurred_at, received_at,
  payload, Statement, WriteResult, row_places, insert_columns, row, rows_from, write_batch,
}

abbrev get_elem? : {A : Type 0} → List A → ℕ → Option A
get_elem? [] i = none
get_elem? (x ∷ xs) zero = some x
get_elem? (x ∷ xs) (suc i) = get_elem? xs i

-- The argument for `$n`: PostgreSQL counts from 1.
abbrev pub argument : List Arg → ℕ → Option Arg
argument args zero = none
argument args (suc n) = get_elem? args n

get_elem?-append :
    (before args : List Arg) (n : ℕ)
    → get_elem? (before ++ args) (length before + n) ≡ get_elem? args n
get_elem?-append [] args n = let e : 0 + n ≡ n = omega arith in rw e
get_elem?-append (x ∷ xs) args n =
    let e : suc (length xs) + n ≡ suc (length xs + n) = omega arith in
    rw e (get_elem?-append xs args n)

argument-append :
    (before args : List Arg) (i k : ℕ)
    → length before ≡ i * 6
    → argument (before ++ args) (i * 6 + suc k) ≡ get_elem? args k
argument-append before args i k h =
    let e : i * 6 + suc k ≡ suc (length before + k) = omega arith in
    rw e (get_elem?-append before args k)

abbrev same_column : Column → Column → Bool
same_column tenant_id tenant_id = true
same_column event_id event_id = true
same_column event_type event_type = true
same_column occurred_at occurred_at = true
same_column received_at received_at = true
same_column payload payload = true
same_column _ _ = false

-- The first of the values that stands at a column.
abbrev pick : List Column → List (Option Arg) → Column → Option Arg
pick [] args c = none
pick (d ∷ ds) [] c = none
pick (d ∷ ds) (a ∷ args) c = if same_column d c then a else pick ds args c

-- What a row of a statement, given by its placeholders, puts into a column.
abbrev pub assigned : Statement → Column → List ℕ → Option Arg
assigned s c places = pick s.columns (map (argument s.args) places) c

module _ (uuid_string : ℕ → Bytes) where
  bind_row :
      (before : List Arg) (i : ℕ) (e : Envelope) (rest : List Arg)
      → length before ≡ i * 6
      → map (argument (before ++ (row uuid_string e ++ rest))) (row_places i)
        ≡ map some (row uuid_string e)
  unfolding row
  bind_row before i e rest h =
      let at = λ (k : ℕ). argument-append before (row uuid_string e ++ rest) i k h in
      cc (at 0, at 1, at 2, at 3, at 4, at 5)

  bind_rows :
      (before : List Arg) (i : ℕ) (es : List Envelope)
      → length before ≡ i * 6
      → map
          (map (argument (before ++ (rows_from uuid_string i es).args)))
          (rows_from uuid_string i es).values
        ≡ map (λ e. map some (row uuid_string e)) es
  unfolding rows_from row
  bind_rows before i [] h = refl
  bind_rows before i (e ∷ es) h =
      let rest = (rows_from uuid_string (suc i) es).args in
      let later = rw (append_assoc before (row uuid_string e) rest) at (
        bind_rows (before ++ row uuid_string e) (suc i) es
          (omega (arith, length-append before (row uuid_string e)))) in
      cc (bind_row before i e rest h, later)

  -- What the statement is to put into a column for an event.
  abbrev pub cell : Envelope → Column → Arg
  cell e tenant_id = text e.tenant_id
  cell e event_id = text (uuid_string e.event_id)
  cell e event_type = text e.event_type
  cell e occurred_at = instant e.occurred_at
  cell e received_at = instant e.received_at
  cell e payload = bytes e.payload

  pick-row :
      (e : Envelope) (c : Column)
      → pick insert_columns (map some (row uuid_string e)) c ≡ some (cell e c)
  unfolding row insert_columns
  pick-row e tenant_id = refl
  pick-row e event_id = refl
  pick-row e event_type = refl
  pick-row e occurred_at = refl
  pick-row e received_at = refl
  pick-row e payload = refl

  columns-rows_from :
      (i : ℕ) (es : List Envelope) → (rows_from uuid_string i es).columns ≡ insert_columns
  unfolding rows_from
  columns-rows_from i [] = refl
  columns-rows_from i (e ∷ es) = refl

  pick-rows :
      (c : Column) (es : List Envelope)
      → map (λ args. pick insert_columns args c) (map (λ e. map some (row uuid_string e)) es)
        ≡ map (λ e. some (cell e c)) es
  pick-rows c [] = refl
  pick-rows c (e ∷ es) = cc (pick-row e c, pick-rows c es)

  pick-values :
      (args : List Arg) (c : Column) (values : List (List ℕ))
      → map (λ args. pick insert_columns args c) (map (map (argument args)) values)
        ≡ map (λ places. pick insert_columns (map (argument args) places) c) values
  pick-values args c [] = refl
  pick-values args c (v ∷ vs) =
      ap (λ r. pick insert_columns (map (argument args) v) c ∷ r) (pick-values args c vs)

  -- The statement of `WriteBatch` has one row for each event, and in the row at its place each of
  -- the six columns that the statement names gets its value of that event: tenant, identifier,
  -- type, the time of the event, the time of its receipt, payload.
  pub rows_from-binds :
      (es : List Envelope) (c : Column)
      → map (assigned (rows_from uuid_string 0 es) c) (rows_from uuid_string 0 es).values
        ≡ map (λ e. some (cell e c)) es
  rows_from-binds es c =
      let s = rows_from uuid_string 0 es in
      rw (columns-rows_from 0 es) (
        sym (pick-values s.args c s.values)
        ∙ ap (map (λ args. pick insert_columns args c)) (bind_rows [] 0 es refl)
        ∙ pick-rows c es)

  length-values :
      (i : ℕ) (es : List Envelope) → length (rows_from uuid_string i es).values ≡ length es
  unfolding rows_from
  length-values i [] = refl
  length-values i (e ∷ es) = ap suc (length-values (suc i) es)

  -- Where the driver inserts no more rows than there are events, the result of a batch accounts
  -- for each of its events, as inserted or as a duplicate; an empty batch sends no statement.
  pub write_batch-counts {ℓ} :
      {E : Type ℓ} (exec : Statement → Result E ℕ) (es : List Envelope) (r : WriteResult)
      → ((s : Statement) (n : ℕ) → exec s ≡ ok n → n ≤ length s.values)
      → write_batch uuid_string exec es ≡ ok r
      → pos r.inserted +ℤ r.duplicates ≡ pos (length es)
  unfolding write_batch ◌+ℤ◌
  write_batch-counts exec [] r bound h = ground arith
  write_batch-counts exec (e ∷ es) r bound h =
      let s = rows_from uuid_string 0 (e ∷ es) in
      elim (Result-cases (exec s)) [
        | inl w ↦ ground (arith, bound s w.0, length-values 0 (e ∷ es))
        | inr w ↦ absurd (ground arith)
      ]

  -- Then there are no fewer duplicates than none.
  pub write_batch-duplicates :
      {E : Type 0} (exec : Statement → Result E ℕ) (es : List Envelope) (r : WriteResult)
      → ((s : Statement) (n : ℕ) → exec s ≡ ok n → n ≤ length s.values)
      → write_batch uuid_string exec es ≡ ok r
      → leb_ℤ (pos 0) r.duplicates ≡ true
  unfolding write_batch
  write_batch-duplicates exec [] r bound h = ground arith
  write_batch-duplicates exec (e ∷ es) r bound h =
      let s = rows_from uuid_string 0 (e ∷ es) in
      elim (Result-cases (exec s)) [
        | inl w ↦ ground (arith, bound s w.0, length-values 0 (e ∷ es))
        | inr w ↦ absurd (ground arith)
      ]
