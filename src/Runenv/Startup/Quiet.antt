-- ===== src/Runenv/Startup/Quiet.antt =====
-- Before docker is used: an attempt to start a project runs no command, and what it prepares is its
-- own.
use ingestkit.Prelude.{
  ℕ, zero, suc, ◌≡◌, refl, ◌∙◌, inl, inr, Bool, true, false, Bool-cases, List, [], ◌∷◌, Bytes,
  strip_prefix, bytes_eq, codes, Result, ok, err,
}
use ingestkit.Prelude.Action.Triples.{Post, returned, failed, Post-bind, Post-weaken}
use ingestkit.Prelude.Strings.{has_prefix}
use ingestkit.Runenv.Shell.{
  Failure, Effect, ran, wrote, made_directory, World, Os, M, ◌>>=◌, pure, fail, emit, ask, or_fail,
}
use ingestkit.Runenv.Stack.{Stack, write_file, make_directory}
use ingestkit.Runenv.Startup.{Options, Machine, project_name}
use ingestkit.Runenv.Startup.Preparation.{
  reserve, read_file, new_stack, prepare_development, exposed, expose, prepare_deployment, prepare,
}

-- The docker commands of a trace.
unfoldable pub dockers : List Effect → List Effect
dockers [] = []
dockers (ran vars args answer ∷ trace) = ran vars args answer ∷ dockers trace
dockers (wrote path content done ∷ trace) = dockers trace
dockers (made_directory path done ∷ trace) = dockers trace

-- From `w` to `w'` no docker command was run.
abbrev pub Quiet : World → World → Type 0
Quiet w w' = dockers w'.trace ≡ dockers w.trace

-- An action that runs no docker command, and of whose result `Q` holds.
abbrev pub IsQuiet : {A : Type 0} → (A → Type 0) → M A → Type 0
IsQuiet Q m = (w : World) → Post (λ a w'. Q a × Quiet w w') (λ f w'. Quiet w w') (m w)

-- A project that its run owns, so that it can be stopped and destroyed.
abbrev pub IsOwned : Stack → Type 0
IsOwned s =
    (s.owned ≡ true)
    × ((s.project ≡ s.identity) × (has_prefix s.project (codes "ingestkit-") ≡ true))

abbrev pub Anything : {A : Type 0} → A → Type 0
Anything a = Unit

module _ {A B : Type 0} {R : A → Type 0} {Q : B → Type 0} where
  bind-IsQuiet :
      (m : M A) (f : A → M B)
      → IsQuiet R m
      → ((a : A) → R a → IsQuiet Q (f a))
      → IsQuiet Q (m >>= f)
  bind-IsQuiet m f h k w =
      Post-bind m f w (h w)
        λ a w1 p. Post-weaken (k a p.0 w1) (λ b w2 q. (q.0, q.1 ∙ p.1)) (λ e w2 q. q ∙ p.1)

pure-IsQuiet : {A : Type 0} {Q : A → Type 0} (a : A) → Q a → IsQuiet Q (pure a)
unfolding pure
pure-IsQuiet a q w = returned (q, refl)

ask-IsQuiet : {A : Type 0} (f : ℕ → A) → IsQuiet Anything (ask f)
unfolding ask
ask-IsQuiet f w = returned (tt, refl)

or_fail-IsQuiet : {A : Type 0} (r : Result Failure A) → IsQuiet Anything (or_fail r)
unfolding or_fail pure fail
or_fail-IsQuiet (ok a) w = returned (tt, refl)
or_fail-IsQuiet (err f) w = failed refl

wrote-IsQuiet : (path content : Bytes) (b : Bool) → IsQuiet Anything (emit (wrote path content b))
unfolding emit dockers
wrote-IsQuiet path content b w = returned (tt, refl)

made-IsQuiet : (path : Bytes) (b : Bool) → IsQuiet Anything (emit (made_directory path b))
unfolding emit dockers
made-IsQuiet path b w = returned (tt, refl)

module _ (os : Os) where
  write_file-IsQuiet : (path content : Bytes) → IsQuiet Anything (write_file os path content)
  unfolding write_file
  write_file-IsQuiet path content =
      bind-IsQuiet _ _ (ask-IsQuiet os.write_file)
        λ answer _. bind-IsQuiet _ _ (wrote-IsQuiet path content _) λ _ _. or_fail-IsQuiet _

  make_directory-IsQuiet : (path : Bytes) → IsQuiet Anything (make_directory os path)
  unfolding make_directory
  make_directory-IsQuiet path =
      bind-IsQuiet _ _ (ask-IsQuiet os.make_directory)
        λ answer _. bind-IsQuiet _ _ (made-IsQuiet path _) λ _ _. or_fail-IsQuiet _

module _ (os : Os) (m : Machine) where
  reserve-IsQuiet : (n : ℕ) → IsQuiet Anything (reserve os m n)
  unfolding reserve
  reserve-IsQuiet zero = pure-IsQuiet [] tt
  reserve-IsQuiet (suc n) = bind-IsQuiet _ _ (ask-IsQuiet os.listen) λ answer _.
      bind-IsQuiet _ _ (or_fail-IsQuiet _)
        λ port _. bind-IsQuiet _ _ (reserve-IsQuiet n) λ ports _. pure-IsQuiet (port ∷ ports) tt

  read_file-IsQuiet : (path : Bytes) → IsQuiet Anything (read_file os m path)
  unfolding read_file
  read_file-IsQuiet path = bind-IsQuiet _ _ (ask-IsQuiet _) λ answer _. or_fail-IsQuiet _

  new_stack-IsQuiet : (root : Bytes) (o : Options) → IsQuiet IsOwned (new_stack os m root o)
  unfolding new_stack project_name has_prefix strip_prefix
  new_stack-IsQuiet root o = bind-IsQuiet _ _ (ask-IsQuiet m.uuid) λ id _.
      bind-IsQuiet _ _ (ask-IsQuiet m.uuid) λ token _. bind-IsQuiet _ _ (ask-IsQuiet _) λ answer _.
        bind-IsQuiet _ _ (or_fail-IsQuiet _) λ path _.
          bind-IsQuiet _ _ (make_directory-IsQuiet os path)
            λ _ _. pure-IsQuiet _ (refl, (refl, refl))

  prepare_development-IsQuiet :
      (s : Stack) → IsOwned s → IsQuiet IsOwned (prepare_development os m s)
  unfolding prepare_development
  prepare_development-IsQuiet s h =
      bind-IsQuiet _ _ (reserve-IsQuiet 4)
        λ ports _. bind-IsQuiet _ _ (write_file-IsQuiet os _ _) λ _ _. pure-IsQuiet _ h

  expose-IsQuiet :
      (s : Stack) (ports : List Bytes) (b : Bool)
      → IsOwned s
      → IsQuiet IsOwned (expose os m s ports b)
  unfolding expose exposed
  expose-IsQuiet s ports false h = pure-IsQuiet s h
  expose-IsQuiet s ports true h =
      bind-IsQuiet _ _ (ask-IsQuiet _)
        λ answer _. bind-IsQuiet _ _ (or_fail-IsQuiet _) λ c _. pure-IsQuiet _ h

  prepare_deployment-IsQuiet :
      (s : Stack) (o : Options) → IsOwned s → IsQuiet IsOwned (prepare_deployment os m s o)
  unfolding prepare_deployment
  prepare_deployment-IsQuiet s o h = bind-IsQuiet _ _ (ask-IsQuiet m.configure) λ answer _.
      bind-IsQuiet _ _ (or_fail-IsQuiet _) λ out _. bind-IsQuiet _ _ (read_file-IsQuiet _) λ cfg _.
        bind-IsQuiet _ _ (reserve-IsQuiet 6) λ ports _.
          bind-IsQuiet _ _ (write_file-IsQuiet os _ _)
            λ _ _. expose-IsQuiet _ ports o.expose_dependencies h

  pub prepare-IsQuiet : (root : Bytes) (o : Options) → IsQuiet IsOwned (prepare os m root o)
  unfolding prepare
  prepare-IsQuiet root o = bind-IsQuiet _ _ (new_stack-IsQuiet root o) λ s h.
      elim (Bool-cases (bytes_eq o.profile (codes "selfhost"))) [
        | inl e ↦ rw e (prepare_deployment-IsQuiet s o h)
        | inr e ↦ rw e (prepare_development-IsQuiet s h)
      ]
