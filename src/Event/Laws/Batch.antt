-- ===== src/Event/Laws/Batch.antt =====
-- `DecodeBatch`: every event of a batch, in its order, or the first error.
use ingestkit.Prelude.{
  ◌≤◌, ◌≡◌, refl, some, inl, inr, List, [], ◌∷◌, ◌++◌, Bytes, length, All, arith, ok, err,
  Result-cases,
}
use ingestkit.Event.Types.{Input, Error, Json, max_batch_events, max_request_bytes}
use ingestkit.Event.Decode.{decode, decode_input, decode_inputs, decode_batch}
use ingestkit.Event.Laws.{IsInput, decode_parts, decode_input-IsInput}

-- Each text decodes to the input that stands at its place.
abbrev pub Each : Json → List Bytes → List Input → Type 0
Each j [] [] = Unit
Each j (b ∷ bs) (i ∷ is) = (decode_input j b ≡ ok i) × Each j bs is
Each j _ _ = ⊥

decode_inputs-Each :
    (j : Json) (bs : List Bytes) (is : List Input) → decode_inputs j bs ≡ ok is → Each j bs is
unfolding decode_inputs
decode_inputs-Each j [] [] h = tt
decode_inputs-Each j [] (i ∷ is) h = absurd (ground arith)
decode_inputs-Each j (b ∷ bs) [] h = absurd (ground arith)
decode_inputs-Each j (b ∷ bs) (i ∷ is) h = (ground arith, decode_inputs-Each j bs is (ground arith))

Each-decode_inputs :
    (j : Json) (bs : List Bytes) (is : List Input) → Each j bs is → decode_inputs j bs ≡ ok is
unfolding decode_inputs
Each-decode_inputs j [] [] h = refl
Each-decode_inputs j [] (i ∷ is) h = absurd h
Each-decode_inputs j (b ∷ bs) [] h = absurd h
Each-decode_inputs j (b ∷ bs) (i ∷ is) h = rw (h.0, Each-decode_inputs j bs is h.1)

length-Each : (j : Json) (bs : List Bytes) (is : List Input) → Each j bs is → length is ≡ length bs
length-Each j [] [] h = refl
length-Each j [] (i ∷ is) h = absurd h
length-Each j (b ∷ bs) [] h = absurd h
length-Each j (b ∷ bs) (i ∷ is) h = omega (arith, length-Each j bs is h.1)

Each-IsInput : (j : Json) (bs : List Bytes) (is : List Input) → Each j bs is → All (IsInput j) is
Each-IsInput j [] [] h = tt
Each-IsInput j [] (i ∷ is) h = absurd h
Each-IsInput j (b ∷ bs) [] h = absurd h
Each-IsInput j (b ∷ bs) (i ∷ is) h = (decode_input-IsInput j b i h.0, Each-IsInput j bs is h.1)

decode_batch_parts :
    (j : Json) (raw : Bytes) (is : List Input)
    → decode_batch j raw ≡ ok is
    → (bs : List Bytes) × (decode j j.decode_events raw max_request_bytes ≡ ok bs)
      × (1 ≤ length bs)
      × (length bs ≤ max_batch_events)
      × (decode_inputs j bs ≡ ok is)
unfolding decode_batch
decode_batch_parts j raw is h =
    elim (Result-cases (decode j j.decode_events raw max_request_bytes)) [
      | inl w ↦ (w.0, w.1, ground arith, ground arith, ground arith)
      | inr w ↦ absurd (ground arith)
    ]

-- A batch that `DecodeBatch` accepts has between 1 and 100 events; each of its raw texts decodes to
-- the event at its place, and each event meets the contract.
pub decode_batch-Each :
    (j : Json) (raw : Bytes) (is : List Input)
    → decode_batch j raw ≡ ok is
    → (bs : List Bytes) × (rest : Bytes) × (j.decode_events raw ≡ some (bs, rest))
      × Each j bs is
      × All (IsInput j) is
      × (1 ≤ length is)
      × (length is ≤ max_batch_events)
decode_batch-Each j raw is h =
    let (bs, d, low, high, e) = decode_batch_parts j raw is h in
    let (rest, found, _, _, _) = decode_parts j j.decode_events raw max_request_bytes bs d in
    let each = decode_inputs-Each j bs is e in
    (
      bs,
      rest,
      found,
      each,
      Each-IsInput j bs is each,
      omega (arith, length-Each j bs is each),
      omega (arith, length-Each j bs is each),
    )

-- The loop fails exactly with the error of the first text that does not decode.
pub decode_inputs-err :
    (j : Json) (bs : List Bytes) (e : Error)
    → decode_inputs j bs ≡ err e
    → (before : List Bytes) × (b : Bytes) × (after : List Bytes) × (is : List Input) × (bs
        ≡ before ++ b ∷ after)
      × Each j before is
      × (decode_input j b ≡ err e)
unfolding decode_inputs
decode_inputs-err j [] e h = absurd (ground arith)
decode_inputs-err j (b ∷ bs) e h = elim (Result-cases (decode_input j b)) [
  | inl w ↦
      let (before, x, after, is, split, each, failed) = decode_inputs-err j bs e (ground arith) in
      (b ∷ before, x, after, w.0 ∷ is, cc split, (w.1, each), failed)
  | inr w ↦ ([], b, bs, [], refl, tt, ground arith)
]
