-- ===== src/Messaging/Publisher/Answers.antt =====
-- What an outcome of `Publish` says of the broker's answers.
use mathlib.Core.List.{Memᴰ}
use mathlib.Core.Path.{subst}
use ingestkit.Prelude.{
  ℕ, zero, suc, ◌≤◌, ◌<◌, ◌≡◌, refl, ◌↔◌, ap, ◌∙◌, inl, inr, Option, none, some, List, [], ◌∷◌,
  Bytes, map, ok, Result-cases, length, All, arith,
}
use ingestkit.Event.{Envelope, Json, encode_envelope}
use ingestkit.Messaging.Records.{KafkaRecord}
use ingestkit.Messaging.Publisher.{
  ProduceError, max_buffered, saturated, buffer_saturated, Broker, fault, receive, send, published,
  record_of, records_of, sent, publish_events,
}

pub receive-none_iff :
    (p : ℕ) (xs : List (Option ProduceError))
    → (receive p xs ≡ none) ↔ (All (λ x. x ≡ none) xs × (length xs ≤ p))
unfolding receive
receive-none_iff p [] = (λ h. (tt, omega arith), λ h. refl)
receive-none_iff zero (x ∷ xs) = (λ h. absurd (ground arith), λ h. absurd (omega arith))
receive-none_iff (suc p) (none ∷ xs) =
    let rest = receive-none_iff p xs in
    (λ h. ((refl, (rest.0 h).0), omega (arith, (rest.0 h).1)), λ h. rest.1 (h.0.1, omega arith))
receive-none_iff (suc p) (some e ∷ xs) = (λ h. absurd (ground arith), λ h. absurd (ground arith))

-- The first answer that is an error, if it comes in time.
abbrev pub first_error : ℕ → List (Option ProduceError) → Option ProduceError
first_error zero xs = none
first_error (suc p) [] = none
first_error (suc p) (none ∷ xs) = first_error p xs
first_error (suc p) (some e ∷ xs) = some e

-- A batch is refused as saturated exactly if the first error among the answers in time is that of
-- a full buffer.
pub receive-saturated :
    (p : ℕ) (xs : List (Option ProduceError))
    → (receive p xs ≡ some (saturated, buffer_saturated)) ↔ (first_error p xs ≡ some max_buffered)
unfolding receive fault
receive-saturated zero [] = ground arith
receive-saturated zero (x ∷ xs) = ground arith
receive-saturated (suc p) [] = ground arith
receive-saturated (suc p) (none ∷ xs) = receive-saturated p xs
receive-saturated (suc p) (some e ∷ xs) = ground arith

All-mem :
    (answer : ℕ → Option ProduceError) {i : ℕ} {is : List ℕ}
    → Memᴰ i is
    → All (λ x. x ≡ none) (map answer is)
    → answer i ≡ none
All-mem answer (Memᴰ.head e) a = ap answer e ∙ a.0
All-mem answer (Memᴰ.tail m) a = All-mem answer m a.1

module _ (j : Json) (uuid_string : ℕ → Bytes) (topic : Bytes) where
  -- Each record is that of the event at its place.
  abbrev pub Encoded : List Envelope → List KafkaRecord → Type 0
  Encoded [] [] = Unit
  Encoded (e ∷ es) (r ∷ rs) =
      ((raw : Bytes) × (encode_envelope j e ≡ ok raw) × (r ≡ record_of j uuid_string topic e raw))
      × Encoded es rs
  Encoded _ _ = ⊥

  records_of-Encoded :
      (es : List Envelope) (rs : List KafkaRecord)
      → records_of j uuid_string topic es ≡ ok rs
      → Encoded es rs
  unfolding records_of
  records_of-Encoded [] [] h = tt
  records_of-Encoded [] (r ∷ rs) h = absurd (ground arith)
  records_of-Encoded (e ∷ es) rs h = elim (Result-cases (encode_envelope j e)) [
    | inr w ↦ absurd (ground arith)
    | inl w ↦ elim (Result-cases (records_of j uuid_string topic es)) [
      | inr v ↦ absurd (ground arith)
      | inl v ↦
          subst (Encoded (e ∷ es)) (whole w.0 v.0 w.1 v.1 h)
            ((w.0, w.1, refl), records_of-Encoded es v.0 v.1)
    ]
  ]
    where
      whole :
          (raw : Bytes) (rest : List KafkaRecord)
          → encode_envelope j e ≡ ok raw
          → records_of j uuid_string topic es ≡ ok rest
          → records_of j uuid_string topic (e ∷ es) ≡ ok rs
          → record_of j uuid_string topic e raw ∷ rest ≡ rs
      whole raw rest p q h = ground arith

  -- Where the answers to a batch hold one to each of its records, `Publish` returns without an
  -- error only if every event was encoded and the broker has acknowledged the record of each.
  pub publish_events-published :
      (b : Broker) (es : List Envelope) (rs : List KafkaRecord)
      → ((i : ℕ) → i < length rs → Memᴰ i (b.order (length rs)))
      → publish_events j uuid_string topic b es ≡ published rs
      → Encoded es rs × ((i : ℕ) → i < length rs → b.answer i ≡ none)
  unfolding publish_events sent send
  publish_events-published b es rs each h =
      elim (Result-cases (records_of j uuid_string topic es)) [
        | inr w ↦ absurd (ground arith)
        | inl w ↦
            let all =
              (receive-none_iff b.patience (map b.answer (b.order (length rs)))).0 (ground arith) in
            (records_of-Encoded es rs (ground arith), λ i l. All-mem b.answer (each i l) all.0)
      ]
