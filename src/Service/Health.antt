-- ===== src/Service/Health.antt =====
-- internal/service/health.go: readiness from what the operations of the consumer have reported.
use ingestkit.Prelude.{
  ◌≡◌, refl, sym, ap, ◌∙◌, ◌↔◌, Bool, true, false, Option, none, some, List, [], ◌∷◌, Bytes,
  bytes_eq, bytes_eq_refl, Bool-cases, inl, inr, length, ◌==◌, arith, if◌then◌else◌,
}
use ingestkit.Prelude.Assoc.{Assoc, lookup, insert, erase, lookup-insert, lookup-erase}

pub record ProcessingHealth : Type 0 where
  pub failed : Assoc Bool

unfoldable pub new_processing_health : ProcessingHealth
new_processing_health = record { failed = [] }

-- `failing` tells whether the operation reports an error.
unfoldable pub observe : ProcessingHealth → Bytes → Bool → ProcessingHealth
observe h operation true = record { failed = insert operation true h.failed }
observe h operation false = record { failed = erase operation h.failed }

unfoldable pub ready : ProcessingHealth → Bool
ready h = length h.failed == 0

-- The reports of the operations, oldest first.
abbrev pub Reports : Type 0
Reports = List (Bytes × Bool)

unfoldable pub observe_all : ProcessingHealth → Reports → ProcessingHealth
observe_all h [] = h
observe_all h ((operation, failing) ∷ rest) = observe_all (observe h operation failing) rest

-- Whether the last report of an operation is an error; `before` where it has none.
abbrev pub last_failing : Bytes → Bool → Reports → Bool
last_failing operation before [] = before
last_failing operation before ((other, failing) ∷ rest) =
    last_failing operation (if bytes_eq other operation then failing else before) rest

abbrev marked : Bool → Option Bool
marked b = if b then some true else none

pub lookup-observe :
    (h : ProcessingHealth) (operation other : Bytes) (failing : Bool)
    → lookup other (observe h operation failing).failed
      ≡ (if bytes_eq operation other then marked failing else lookup other h.failed)
unfolding observe
lookup-observe h operation other true = lookup-insert operation other true h.failed
lookup-observe h operation other false = lookup-erase operation other h.failed

lookup-observe_all :
    (h : ProcessingHealth) (operation : Bytes) (before : Bool) (reports : Reports)
    → lookup operation h.failed ≡ marked before
    → lookup operation (observe_all h reports).failed
      ≡ marked (last_failing operation before reports)
unfolding observe_all
lookup-observe_all h operation before [] e = e
lookup-observe_all h operation before ((other, failing) ∷ rest) e =
    lookup-observe_all (observe h other failing) operation _ rest
      (rw lookup-observe (ground (arith, e)))

none_marked : (m : Assoc Bool) → ((k : Bytes) → lookup k m ≡ none) → m ≡ []
unfolding lookup
none_marked [] h = refl
none_marked ((k, v) ∷ m) h = absurd (ground (arith, h k, bytes_eq_refl k))

lookup-empty : (m : Assoc Bool) → (length m == 0) ≡ true → (k : Bytes) → lookup k m ≡ none
unfolding lookup
lookup-empty [] e k = refl
lookup-empty ((j, v) ∷ m) e k = absurd (ground arith)

ready_iff : (h : ProcessingHealth) → (ready h ≡ true) ↔ ((k : Bytes) → lookup k h.failed ≡ none)
unfolding ready
ready_iff h = (λ r. lookup-empty h.failed r, λ f. rw (none_marked h.failed f))

unmarked : (b : Bool) → marked b ≡ none → b ≡ false
unmarked b e = ground arith

nothing : (operation : Bytes) → lookup operation new_processing_health.failed ≡ none
unfolding new_processing_health lookup
nothing operation = refl

-- After any reports a process is ready exactly if the last report of every operation, where it has
-- one, is a success.
pub ready-observe_all :
    (reports : Reports)
    → (ready (observe_all new_processing_health reports) ≡ true)
      ↔ ((operation : Bytes) → last_failing operation false reports ≡ false)
ready-observe_all reports =
    let r = ready_iff (observe_all new_processing_health reports) in
    (
      λ e operation. unmarked _ (sym (start operation) ∙ r.0 e operation),
      λ f. r.1 (λ operation. start operation ∙ ap marked (f operation)),
    )
  where
    start :
        (operation : Bytes)
        → lookup operation (observe_all new_processing_health reports).failed
          ≡ marked (last_failing operation false reports)
    start operation =
        lookup-observe_all new_processing_health operation false reports (nothing operation)

-- An operation that has failed, and of which no report tells otherwise, keeps a process unready.
pub ready-failing :
    (h : ProcessingHealth) (operation : Bytes) (reports : Reports)
    → lookup operation h.failed ≡ some true
    → last_failing operation true reports ≡ true
    → ready (observe_all h reports) ≡ false
ready-failing h operation reports e l =
    let there : lookup operation (observe_all h reports).failed ≡ some true =
      lookup-observe_all h operation true reports e ∙ ap marked l in
    elim (Bool-cases (ready (observe_all h reports))) [
      | inr unready ↦ unready
      | inl calm ↦
          absurd (ground (arith, there, (ready_iff (observe_all h reports)).0 calm operation))
    ]
