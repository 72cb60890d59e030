-- ===== src/Runenv/Stack/Verified.antt =====
-- What `verifyOwner` finds: all containers and volumes of a project carry the token of the run.
use mathlib.Core.Path.{subst}
use ingestkit.Prelude.{
  suc, ◌≡◌, refl, sym, ◌⊎◌, inl, inr, Bool, true, false, not, ◌&&◌, List, [], ◌∷◌, Bytes, bytes_eq,
  bytes_eq_iff, codes, ◌==◌, length, Result, ok, err, Result-cases, arith,
}
use ingestkit.Prelude.Action.Triples.{Post, returned, failed, Post-bind, Post-weaken}
use ingestkit.Prelude.Strings.{trim_space, fields, has_prefix}
use ingestkit.Runenv.Shell.{
  Failure, identity_mismatch, refused, container_mismatch, volume_mismatch, Effect, ran, World, Os,
  M, ◌>>=◌, ◌>>◌, pure, fail, emit, ask, or_fail, guard,
}
use ingestkit.Runenv.Stack.{
  Stack, is_selfhost, config_error, compose_args, docker, compose, check_labels, inspect_container,
  inspect_volume, list_containers, list_volumes, verify_owner,
}

pub Post-guard :
    {A : Type 0} {Q : A → World → Type 0} {E : Failure → World → Type 0} (b : Bool) (f : Failure)
    (k : M A) (w : World)
    → (b ≡ true → Post Q E (k w))
    → E f w
    → Post Q E ((guard b f >> k) w)
unfolding guard pure fail ◌>>=◌
Post-guard true f k w q e = q refl
Post-guard false f k w q e = failed e

module _ (os : Os) (s : Stack) where
  -- A docker command runs once or, if the settings cannot be read, not at all.
  pub docker_lem :
      (args : List Bytes) (w : World)
      → Post
          (λ out w'. (vars : List Bytes) × (w'.trace ≡ ran vars args (ok out) ∷ w.trace))
          (λ f w'.
            (w'.trace ≡ w.trace)
            ⊎ ((vars : List Bytes) × (out : Bytes) × (w'.trace
                  ≡ ran vars args (err out) ∷ w.trace)))
          (docker os s args w)
  unfolding docker ◌>>=◌ ask emit or_fail pure fail
  docker_lem args w = elim (Result-cases (config_error os s (is_selfhost s) w.tick)) [
    | inr e ↦ rw e.1 (failed (inl refl))
    | inl v ↦ rw v.1 elim (Result-cases (os.docker (suc w.tick) args)) [
      | inl a ↦ rw a.1 (returned (v.0, refl))
      | inr a ↦ rw a.1 (failed (inr (v.0, a.0, refl)))
    ]
  ]

  -- Every name carries the run's token: what was run from `h` to `k` is one inspection of each, in
  -- their order.
  abbrev pub Checked : (Bytes → List Bytes) → List Effect → List Bytes → List Effect → Type 0
  Checked inspect h [] k = k ≡ h
  Checked inspect h (name ∷ names) k =
      (vars : List Bytes) × (out : Bytes) × (trim_space out ≡ s.token)
      × Checked inspect (ran vars (inspect name) (ok out) ∷ h) names k

  -- From `h` to `k` the project was found to be the run's own: all its containers and volumes, as
  -- docker lists them, carry its token.
  pub record Verified (h k : List Effect) : Type 0 where
    pub owned : s.owned ≡ true
    pub same : s.project ≡ s.identity
    pub ids : Bytes
    pub volumes : Bytes
    pub first : List Bytes
    pub second : List Bytes
    pub between : List Effect
    pub containers :
        Checked inspect_container
          (ran first (list_containers os s) (ok ids) ∷ h)
          (fields ids)
          between
    pub mounts :
        Checked inspect_volume
          (ran second (list_volumes s) (ok volumes) ∷ between)
          (fields volumes)
          k

  -- The commands that only look.
  pub data IsInspection : List Bytes → Type 0 where
    containers : IsInspection (list_containers os s)
    volumes : IsInspection (list_volumes s)
    container : (id : Bytes) → IsInspection (inspect_container id)
    volume : (name : Bytes) → IsInspection (inspect_volume name)

  -- From `h` to `k` nothing was done but to look.
  pub data Looked (h : List Effect) : List Effect → Type 0 where
    nothing : Looked h h
    look :
        {k : List Effect} {vars args : List Bytes} {a : Result Bytes Bytes}
        → IsInspection args
        → Looked h k
        → Looked h (ran vars args a ∷ k)

  docker_looks :
      {h : List Effect} (args : List Bytes) (w : World)
      → IsInspection args
      → Looked h w.trace
      → Post
          (λ out w'.
            ((vars : List Bytes) × (w'.trace ≡ ran vars args (ok out) ∷ w.trace))
            × Looked h w'.trace)
          (λ f w'. Looked h w'.trace)
          (docker os s args w)
  docker_looks {h} args w i l =
      Post-weaken (docker_lem args w) (λ out w' p. (p, subst (Looked h) (sym p.1) (look i l)))
        λ f w'. elim [
          | inl e ↦ subst (Looked h) (sym e) l
          | inr e ↦ subst (Looked h) (sym e.2) (look i l)
        ]

  check_labels_lem :
      {h : List Effect} (inspect : Bytes → List Bytes) (mismatch : Failure) (names : List Bytes)
      (w : World)
      → ((name : Bytes) → IsInspection (inspect name))
      → Looked h w.trace
      → Post
          (λ _ w'. Checked inspect w.trace names w'.trace × Looked h w'.trace)
          (λ f w'. Looked h w'.trace)
          (check_labels os s inspect mismatch names w)
  unfolding check_labels pure
  check_labels_lem inspect mismatch [] w i l = returned (refl, l)
  check_labels_lem {h} inspect mismatch (name ∷ names) w i l =
      Post-bind (docker os s (inspect name)) _ w (docker_looks (inspect name) w (i name) l)
        λ out w1 p.
          Post-guard (bytes_eq (trim_space out) s.token) mismatch _ w1
            (λ e.
              Post-weaken (check_labels_lem inspect mismatch names w1 i p.1)
                (λ _ w2 r. (
                  (
                    p.0.0,
                    out,
                    (bytes_eq_iff (trim_space out) s.token).0 e,
                    subst (λ t. Checked inspect t names w2.trace) p.0.1 r.0,
                  ),
                  r.1,
                ))
                λ f w2 r. r)
            p.1

  compose_looks :
      {h : List Effect} (args : List Bytes) (w : World)
      → IsInspection (compose_args os s args)
      → Looked h w.trace
      → Post
          (λ out w'.
            ((vars : List Bytes) × (w'.trace
                ≡ ran vars (compose_args os s args) (ok out) ∷ w.trace))
            × Looked h w'.trace
            × (s.owned ≡ true)
            × (s.project ≡ s.identity))
          (λ f w'. Looked h w'.trace)
          (compose os s args w)
  unfolding compose
  compose_looks args w i l =
      Post-guard (s.owned && bytes_eq s.project s.identity) identity_mismatch _ w
        (λ e.
          Post-weaken (docker_looks (compose_args os s args) w i l)
            (λ out w' p.
              (p.0, p.1, ground arith, (bytes_eq_iff s.project s.identity).0 (ground arith)))
            λ f w' p. p)
        l

  pub verify_owner_lem :
      (w : World)
      → Post
          (λ _ w'. Verified w.trace w'.trace × Looked w.trace w'.trace)
          (λ f w'. Looked w.trace w'.trace)
          (verify_owner os s w)
  unfolding verify_owner
  verify_owner_lem w =
      Post-guard (s.owned && not (length s.token == 0) && has_prefix s.project (codes "ingestkit-"))
        refused _ w
        (λ g.
          Post-bind (compose os s (codes "ps" ∷ codes "-a" ∷ codes "-q" ∷ [])) _ w
            (compose_looks _ w containers nothing)
            λ ids w1 p.
              Post-bind (check_labels os s inspect_container container_mismatch (fields ids)) _ w1
                (check_labels_lem inspect_container container_mismatch (fields ids) w1 container
                  p.1)
                λ _ w2 q.
                  Post-bind (docker os s (list_volumes s)) _ w2
                    (docker_looks (list_volumes s) w2 volumes q.1)
                    λ names w3 r.
                      Post-weaken
                        (check_labels_lem inspect_volume volume_mismatch (fields names) w3 volume
                          r.1)
                        (λ _ w4 t. (
                          record {
                            owned = p.2;
                            same = p.3;
                            ids = ids;
                            volumes = names;
                            first = p.0.0;
                            second = r.0.0;
                            between = w2.trace;
                            containers =
                                subst (λ k. Checked inspect_container k (fields ids) w2.trace) p.0.1
                                  q.0;
                            mounts =
                                subst (λ k. Checked inspect_volume k (fields names) w4.trace) r.0.1
                                  t.0;
                          },
                          t.1,
                        ))
                        λ f w4 t. t)
        nothing
