-- ===== src/Runenv/Startup/Cleanup.antt =====
-- What an attempt to start a project leaves behind.
use ingestkit.Prelude.{ℕ, ◌≡◌, refl, inl, inr, Bool-cases, none, some, Bytes, Result, ok, err}
use ingestkit.Prelude.Action.Triples.{Post, returned, failed, Post-bind}
use ingestkit.Runenv.Shell.{Failure, World, Os, M, ◌>>=◌, pure}
use ingestkit.Runenv.Stack.{Stack, is_selfhost, destroy, collect_evidence}
use ingestkit.Runenv.Stack.Ownership.{After, Guarded, destroying, command_of, perform-Guarded}
use ingestkit.Runenv.Startup.{Options, Machine, StartError, error_of, plain, failed_start}
use ingestkit.Runenv.Startup.Preparation.{prepare}
use ingestkit.Runenv.Startup.Launch.{
  start_development, start_deployment, cleanup, bring_up, conclude, go_on, start_attempt,
}
use ingestkit.Runenv.Startup.Quiet.{Quiet, IsOwned, Anything, prepare-IsQuiet}

-- Whatever an action does, what it returns is as `Q` says.
abbrev Returns : {A : Type 0} → (A → Type 0) → M A → Type 0
Returns Q m = (w : World) → Post (λ a w'. Q a) (λ f w'. Unit {0}) (m w)

either : {A : Type 0} (m : M A) → Returns Anything m
either {A} m w = settle (m w)
  where
    settle : (r : Result Failure A × World) → Post (λ a w'. Unit {0}) (λ f w'. Unit {0}) r
    settle (ok a, w) = returned tt
    settle (err f, w) = failed tt

module _ {A B : Type 0} {Q : B → Type 0} where
  bind-Returns : (m : M A) (f : A → M B) → ((a : A) → Returns Q (f a)) → Returns Q (m >>= f)
  bind-Returns m f k w = Post-bind m f w (either m w) λ a w1 _. k a w1

pure-Returns : {A : Type 0} {Q : A → Type 0} (a : A) → Q a → Returns Q (pure a)
unfolding pure
pure-Returns a q w = returned q

module _ (os : Os) (m : Machine) where
  start_development-Returns : (s : Stack) → IsOwned s → Returns IsOwned (start_development os m s)
  unfolding start_development
  start_development-Returns s h = bind-Returns _ _ λ _. bind-Returns _ _ λ api.
      bind-Returns _ _
        λ consumer. bind-Returns _ _ λ postgres. bind-Returns _ _ λ _. pure-Returns _ h

  start_deployment-Returns :
      (fuel : ℕ) (s : Stack) → IsOwned s → Returns IsOwned (start_deployment os m fuel s)
  unfolding start_deployment
  start_deployment-Returns fuel s h = bind-Returns _ _ λ _. bind-Returns _ _ λ _. pure-Returns s h

  bring_up-Returns : (fuel : ℕ) (s : Stack) → IsOwned s → Returns IsOwned (bring_up os m fuel s)
  bring_up-Returns fuel s h = elim (Bool-cases (is_selfhost s)) [
    | inl e ↦ rw e (start_deployment-Returns fuel s h)
    | inr e ↦ rw e (start_development-Returns s h)
  ]

module _ (os : Os) (m : Machine) (root : Bytes) (o : Options) where
  -- The project that the attempt has prepared, from the world in which it began.
  abbrev pub Prepared : World → Stack → Type 0
  Prepared w s = (w1 : World) × ((prepare os m root o w ≡ (ok s, w1)) × IsOwned s)

  -- The last that was done is the destruction of the project that the attempt has prepared.
  abbrev pub Destroyed : World → Bytes → World → Type 0
  Destroyed w directory w' =
      (s : Stack) × (Prepared w s
        × ((s.directory ≡ directory)
            × ((w2 : World) × ((out : Bytes) × After os s (command_of destroying) w2 w' (ok out)))))

  -- What an attempt from `w` to `w'` that ends with an error leaves behind: nothing was run, or its
  -- own project was destroyed. There is no promise where the cleanup has failed.
  abbrev pub Clean : StartError → World → World → Type 0
  Clean (plain f) w w' = Quiet w w'
  Clean (failed_start directory cause evidence none) w w' = Destroyed w directory w'
  Clean (failed_start directory cause evidence (some g)) w w' = Unit

  cleanup-Clean :
      (s : Stack) (cause : Failure) (w0 w : World)
      → Prepared w0 s
      → Clean (cleanup os m s cause w).0 w0 (cleanup os m s cause w).1
  unfolding cleanup
  cleanup-Clean s cause w0 w h =
      let w1 = (collect_evidence os s s.directory w).1 in
      settle w1 (destroy os s w1) (perform-Guarded os s destroying w1)
    where
      settle :
          (w1 : World) (r : Result Failure (Unit {0}) × World)
          → Guarded os s (command_of destroying) w1 r
          → Clean
              (failed_start s.directory cause
                (error_of (collect_evidence os s s.directory w).0)
                (error_of r.0))
              w0
              r.1
      settle w1 r (returned (out, a)) = (s, (h, (refl, (w1, (out, a)))))
      settle w1 r (failed e) = tt

  -- A project that an attempt returns is its run's own; an error leaves nothing behind.
  abbrev pub Sound : World → Result StartError Stack × World → Type 0
  Sound w r = Post (λ s w'. IsOwned s) (λ e w'. Clean e w w') r

  conclude-Sound :
      (s : Stack) (w : World) (r : Result Failure Stack × World)
      → Prepared w s
      → Post (λ a w'. IsOwned a) (λ f w'. Unit {0}) r
      → Sound w (conclude os m s r)
  conclude-Sound s w r h (returned a) = returned a
  conclude-Sound s w (err f, w1) h (failed e) = failed (cleanup-Clean s f w w1 h)

  go_on-Sound :
      (fuel : ℕ) (w : World) (r : Result Failure Stack × World)
      → prepare os m root o w ≡ r
      → Post (λ a w'. IsOwned a × Quiet w w') (λ f w'. Quiet w w') r
      → Sound w (go_on os m fuel r)
  go_on-Sound fuel w (ok s, w1) e (returned p) =
      conclude-Sound s w (bring_up os m fuel s w1) (w1, (e, p.0))
        (bring_up-Returns os m fuel s p.0 w1)
  go_on-Sound fuel w (err f, w1) e (failed q) = failed q

  pub start_attempt-Sound : (fuel : ℕ) (w : World) → Sound w (start_attempt os m fuel root o w)
  unfolding start_attempt
  start_attempt-Sound fuel w =
      go_on-Sound fuel w (prepare os m root o w) refl (prepare-IsQuiet os m root o w)
