-- ===== src/Prelude/Assoc.antt =====
-- Go maps with byte-string keys as association lists; iteration order is never used for a result.
use mathlib.Core.Path.{◌≡◌, refl, ap}
use mathlib.Core.Option.{Option, none, some}
use mathlib.Core.List.{List, [], ◌∷◌, ◌++◌}
use native.Mathlib.Omega.{arith}
use mathlib.Core.Logic.{inl, inr}
use ingestkit.Prelude.Tests.{if◌then◌else◌, Bool-cases}
use ingestkit.Prelude.Text.{Bytes, bytes_eq, bytes_eq_iff, bytes_eq_refl}

abbrev pub Assoc {ℓ} : Type ℓ → Type ℓ
Assoc V = List (Bytes × V)

module _ {ℓ} {V : Type ℓ} where
  -- v, ok := m[k]
  unfoldable pub lookup : Bytes → Assoc V → Option V
  lookup k [] = none
  lookup k ((j, v) ∷ m) = if bytes_eq j k then some v else lookup k m

  -- m[k] = v
  unfoldable pub insert : Bytes → V → Assoc V → Assoc V
  insert k v [] = (k, v) ∷ []
  insert k v ((j, w) ∷ m) = if bytes_eq j k then (k, v) ∷ m else (j, w) ∷ insert k v m

  -- delete(m, k)
  unfoldable pub erase : Bytes → Assoc V → Assoc V
  erase k [] = []
  erase k ((j, w) ∷ m) = let rest = erase k m in if bytes_eq j k then rest else (j, w) ∷ rest

  pub lookup-insert :
      (k j : Bytes) (v : V) (m : Assoc V)
      → lookup j (insert k v m) ≡ (if bytes_eq k j then some v else lookup j m)
  unfolding lookup insert
  lookup-insert k j v [] = refl
  lookup-insert k j v ((i, w) ∷ m) =
      ground (arith, bytes_eq_iff k j, bytes_eq_iff i k, bytes_eq_iff i j, lookup-insert k j v m)

  pub lookup-erase :
      (k j : Bytes) (m : Assoc V)
      → lookup j (erase k m) ≡ (if bytes_eq k j then none else lookup j m)
  unfolding lookup erase
  lookup-erase k j [] = ground arith
  lookup-erase k j ((i, w) ∷ m) =
      ground (arith, bytes_eq_iff k j, bytes_eq_iff i k, bytes_eq_iff i j, lookup-erase k j m)

-- No key stands twice.
abbrev pub Distinct {ℓ} : {V : Type ℓ} → Assoc V → Type ℓ
Distinct [] = Unit
Distinct ((k, v) ∷ m) = (lookup k m ≡ none) × Distinct m

module _ {ℓ} {V : Type ℓ} where
  pub insert-Distinct : (k : Bytes) (v : V) (m : Assoc V) → Distinct m → Distinct (insert k v m)
  unfolding insert lookup
  insert-Distinct k v [] d = (refl, tt)
  insert-Distinct k v ((j, w) ∷ m) d = elim (Bool-cases (bytes_eq j k)) [
    | inl e ↦ rw e (rw ((bytes_eq_iff j k).0 e) at d.0, d.1)
    | inr e ↦ rw e (
      (rw lookup-insert (ground (arith, d.0, bytes_eq_iff j k, bytes_eq_iff k j))),
      insert-Distinct k v m d.1,
    )
  ]

  pub insert_new :
      (k : Bytes) (v : V) (m : Assoc V) → lookup k m ≡ none → insert k v m ≡ m ++ (k, v) ∷ []
  unfolding lookup insert
  insert_new k v [] e = refl
  insert_new k v ((j, w) ∷ m) e = elim (Bool-cases (bytes_eq j k)) [
    | inl q ↦ absurd (ground arith)
    | inr q ↦ rw q (ap (λ r. (j, w) ∷ r) (insert_new k v m (ground arith)))
  ]

  lookup-mid : (k : Bytes) (v : V) (m ps : Assoc V) → lookup k (m ++ (k, v) ∷ ps) ≡ none → ⊥
  unfolding lookup
  lookup-mid k v [] ps e = ground (arith, bytes_eq_refl k)
  lookup-mid k v ((j, w) ∷ m) ps e = elim (Bool-cases (bytes_eq j k)) [
    | inl q ↦ ground arith
    | inr q ↦ lookup-mid k v m ps (ground arith)
  ]

  pub lookup-append :
      (k : Bytes) (m : Assoc V) (v : V) (ps : Assoc V)
      → Distinct (m ++ (k, v) ∷ ps)
      → lookup k m ≡ none
  unfolding lookup
  lookup-append k [] v ps h = refl
  lookup-append k ((j, w) ∷ m) v ps h = elim (Bool-cases (bytes_eq j k)) [
    | inl q ↦ absurd (lookup-mid k v m ps (rw ((bytes_eq_iff j k).0 q) at h.0))
    | inr q ↦ rw q (lookup-append k m v ps h.1)
  ]
