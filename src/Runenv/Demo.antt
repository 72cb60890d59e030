-- ===== src/Runenv/Demo.antt =====
-- internal/runenv/demo.go: the reconciliation of the identifiers that a service has accepted with
-- those in its store, and the check of an acknowledgement.
pub mod Reconciliation
pub mod Run
pub mod Completion
use ingestkit.Prelude.{
  ℕ, Bool, true, false, not, ◌||◌, List, [], ◌∷◌, ◌==◌, length, Result, ok, err, ◌>>=◌, ◌>>◌,
  require, if◌then◌else◌,
}

pub data ReconcileError : Type 0 where
  unexpected_or_duplicate missing : ReconcileError

-- A Go map from identifiers to true, by its keys.
unfoldable pub has : List ℕ → ℕ → Bool
has [] id = false
has (x ∷ xs) id = (x == id) || has xs id

unfoldable pub put : List ℕ → ℕ → List ℕ
put set id = if has set id then set else id ∷ set

unfoldable pub wanted : List ℕ → List ℕ → List ℕ
wanted want [] = want
wanted want (id ∷ expected) = wanted (put want id) expected

-- The loop over the stored identifiers.
unfoldable pub see : List ℕ → List ℕ → List ℕ → Result ReconcileError (List ℕ)
see want seen [] = ok seen
see want seen (id ∷ actual) =
    if has seen id || not (has want id)
    then err unexpected_or_duplicate
    else see want (put seen id) actual

unfoldable pub reconcile_ids : List ℕ → List ℕ → Result ReconcileError (Unit {0})
reconcile_ids expected actual = do
  let want = wanted [] expected
  seen ← see want [] actual
  require (length seen == length want) missing
