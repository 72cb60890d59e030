-- ===== src/Runenv/Stack/Ownership.antt =====
-- No operation changes a project before its containers and volumes were found to be the run's own.
use mathlib.Core.Path.{subst}
use ingestkit.Prelude.{
  ◌≡◌, sym, ◌⊎◌, inl, inr, Bool, ◌&&◌, List, [], ◌∷◌, Bytes, bytes_eq, codes, Result, ok, err,
  if◌then◌else◌,
}
use ingestkit.Prelude.Action.Triples.{Post, returned, Post-bind, Post-weaken}
use ingestkit.Runenv.Shell.{
  Failure, identity_mismatch, unsupported_service, Effect, ran, World, Os, M, pure,
}
use ingestkit.Runenv.Stack.{
  Stack, is_service, compose_args, compose, verify_owner, owned_command, stop, destroy,
  kill_consumer, set_service_running,
}
use ingestkit.Runenv.Stack.Verified.{Post-guard, docker_lem, Verified, Looked, verify_owner_lem}

module _ (os : Os) (s : Stack) where
  -- The command ran last, with that answer, when the project had been found to be the run's own.
  abbrev pub After : List Bytes → World → World → Result Bytes Bytes → Type 0
  After args w w' answer =
      (k : List Effect) × (vars : List Bytes) × Verified os s w.trace k
      × (w'.trace ≡ ran vars (compose_args os s args) answer ∷ k)

  abbrev pub Guarded : List Bytes → World → Result Failure (Unit {0}) × World → Type 0
  Guarded args w =
      Post (λ _ w'. (out : Bytes) × After args w w' (ok out))
        (λ f w'. Looked os s w.trace w'.trace ⊎ ((out : Bytes) × After args w w' (err out)))

  compose-After :
      (args : List Bytes) (w w1 : World)
      → Verified os s w.trace w1.trace
      → Looked os s w.trace w1.trace
      → Post
          (λ out w'. After args w w' (ok out))
          (λ f w'. Looked os s w.trace w'.trace ⊎ ((out : Bytes) × After args w w' (err out)))
          (compose os s args w1)
  unfolding compose
  compose-After args w w1 v l =
      Post-guard (s.owned && bytes_eq s.project s.identity) identity_mismatch _ w1
        (λ e.
          Post-weaken (docker_lem os s (compose_args os s args) w1)
            (λ out w2 p. (w1.trace, p.0, v, p.1))
            λ f w2. elim [
              | inl same ↦ inl (subst (Looked os s w.trace) (sym same) l)
              | inr p ↦ inr (p.1, (w1.trace, p.0, v, p.2))
            ])
        (inl l)

  owned_command_lem : (args : List Bytes) (w : World) → Guarded args w (owned_command os s args w)
  unfolding owned_command pure
  owned_command_lem args w =
      Post-bind (verify_owner os s) _ w
        (Post-weaken (verify_owner_lem os s w) (λ _ w1 p. p) λ f w1 l. inl l)
        λ _ w1 p.
          Post-bind (compose os s args) _ w1 (compose-After args w w1 p.0 p.1)
            λ out w2 a. returned (out, a)

-- The operations that change a project, and the command of each.
pub data Operation : Type 0 where
  stopping destroying killing : Operation
  running : Bytes → Bool → Operation

abbrev pub perform : Os → Stack → Operation → M (Unit {0})
perform os s stopping = stop os s
perform os s destroying = destroy os s
perform os s killing = kill_consumer os s
perform os s (running name b) = set_service_running os s name b

abbrev pub command_of : Operation → List Bytes
command_of stopping = codes "stop" ∷ []
command_of destroying = codes "down" ∷ codes "-v" ∷ codes "--remove-orphans" ∷ []
command_of killing = codes "kill" ∷ codes "-s" ∷ codes "KILL" ∷ codes "consumer" ∷ []
command_of (running name b) = (if b then codes "start" else codes "stop") ∷ name ∷ []

-- An operation returns only when its one command has succeeded on a project all of whose containers
-- and volumes docker had just reported with the token of the run. If it fails, docker was only asked
-- to list and to inspect, or that one command failed after the same findings.
pub perform-Guarded :
    (os : Os) (s : Stack) (op : Operation) (w : World)
    → Guarded os s (command_of op) w (perform os s op w)
unfolding stop destroy kill_consumer set_service_running
perform-Guarded os s stopping w = owned_command_lem os s _ w
perform-Guarded os s destroying w = owned_command_lem os s _ w
perform-Guarded os s killing w = owned_command_lem os s _ w
perform-Guarded os s (running name b) w =
    Post-guard (is_service name) unsupported_service _ w (λ e. owned_command_lem os s _ w)
      (inl (Looked.nothing))
