-- ===== src/Runenv/Startup/Attempts.antt =====
-- Which attempts to start a project are followed by another.
use mathlib.Core.Path.{subst}
use ingestkit.Prelude.{
  ℕ, zero, suc, ◌<◌, ◌≡◌, refl, ◌⊎◌, inl, inr, true, false, not, ◌&&◌, ◌||◌, Bool-cases,
  Option-cases, Option, none, some, Bytes, bytes_eq, codes, Result, ok, err, arith,
}
use ingestkit.Prelude.Action.Triples.{failed}
use ingestkit.Runenv.Shell.{
  Failure, unsupported_profile, probes_need_selfhost, outside_checkout, World, Os,
}
use ingestkit.Runenv.Stack.{Stack}
use ingestkit.Runenv.Startup.{
  Options, Machine, StartError, error_in_use, cleanup_failed, is_profile, retried, plain,
}
use ingestkit.Runenv.Startup.Launch.{start_attempt, tries, start}
use ingestkit.Runenv.Startup.Cleanup.{Clean, Sound, start_attempt-Sound}

module _ (os : Os) (m : Machine) (fuel : ℕ) (root : Bytes) (o : Options) where
  -- From the first world to the second, so many attempts have failed because an address was in use,
  -- and left nothing behind.
  pub data Retries : ℕ → World → World → Type 0 where
    no_retry : {w : World} → Retries 0 w w
    retry :
        {k : ℕ} {w w1 w2 : World} {e : StartError}
        → start_attempt os m fuel root o w ≡ (err e, w1)
        → error_in_use e ≡ true
        → cleanup_failed e ≡ false
        → Clean os m root o e w w1
        → Retries k w1 w2
        → Retries (suc k) w w2

  -- One attempt, after fewer than `n` others.
  pub record Tried (n : ℕ) (w : World) (r : Result StartError Stack × World) : Type 0 where
    pub before : ℕ
    pub begun : World
    pub few : before < n
    pub retries : Retries before w begun
    pub attempted : start_attempt os m fuel root o begun ≡ r
    pub sound : Sound os m root o begun r

  once : (n : ℕ) (w : World) → Tried (suc n) w (start_attempt os m fuel root o w)
  once n w = record {
    before = 0;
    begun = w;
    few = omega arith;
    retries = no_retry;
    attempted = refl;
    sound = start_attempt-Sound os m root o fuel w;
  }

  after_retry :
      (n : ℕ) (w w1 : World) (e : StartError) (r : Result StartError Stack × World)
      → start_attempt os m fuel root o w ≡ (err e, w1)
      → error_in_use e ≡ true
      → cleanup_failed e ≡ false
      → Tried n w1 r
      → Tried (suc n) w r
  after_retry n w w1 e r a used clean t =
      let left : Sound os m root o w (err e, w1) =
        subst (Sound os m root o w) a (start_attempt-Sound os m root o fuel w) in
      record {
        before = suc t.before;
        begun = t.begun;
        few = omega (arith, t.few);
        retries = retry a used clean (clean_of e w1 left) t.retries;
        attempted = t.attempted;
        sound = t.sound;
      }
    where
      clean_of :
          (e : StartError) (w1 : World) → Sound os m root o w (err e, w1) → Clean os m root o e w w1
      clean_of e w1 (failed c) = c

  answer-cases :
      (r : Result StartError Stack × World)
      → ((s : Stack) × ((w1 : World) × (r ≡ (ok s, w1))))
        ⊎ ((e : StartError) × ((w1 : World) × (r ≡ (err e, w1))))
  answer-cases (ok s, w1) = inl (s, (w1, refl))
  answer-cases (err e, w1) = inr (e, (w1, refl))

  -- The outcome of an attempt, in its parts.
  only :
      (n : ℕ) (w : World) (r : Result StartError Stack × World)
      → start_attempt os m fuel root o w ≡ r
      → Tried (suc n) w r
  only n w r a = subst (Tried (suc n) w) a (once n w)

  -- One attempt with `next` behind it, where it is retried.
  either_way :
      (n : ℕ) (w : World) (next : StartError → World → Result StartError Stack × World)
      → ((e : StartError) (w1 : World)
          → start_attempt os m fuel root o w ≡ (err e, w1)
          → error_in_use e ≡ true
          → cleanup_failed e ≡ false
          → Tried (suc n) w (next e w1))
      → Tried (suc n) w (retried next (start_attempt os m fuel root o w))
  either_way n w next more = elim (answer-cases (start_attempt os m fuel root o w)) [
    | inl (s, (w1, a)) ↦ rw a (only n w (ok s, w1) a)
    | inr (e, (w1, a)) ↦ elim (Bool-cases (not (error_in_use e) || cleanup_failed e)) [
      | inl b ↦ rw a (rw b (only n w (err e, w1) a))
      | inr b ↦ rw a (rw b (more e w1 a (ground (arith, b)) (ground (arith, b))))
    ]
  ]

  tries-Tried :
      (left : ℕ) (last : StartError) (w : World)
      → Tried (suc left) w (tries os m fuel (suc left) root o last w)
  unfolding tries
  tries-Tried zero last w =
      either_way zero w (tries os m fuel zero root o) λ e w1 a used clean. only zero w (err e, w1) a
  tries-Tried (suc left) last w =
      either_way (suc left) w (tries os m fuel (suc left) root o)
        λ e w1 a used clean. after_retry (suc left) w w1 e _ a used clean (tries-Tried left e w1)

-- Why `Start` does not begin.
abbrev pub Refused : Option Bytes → Options → Type 0
Refused root o =
    (is_profile o.profile ≡ false)
    ⊎ (((o.expose_dependencies && not (bytes_eq o.profile (codes "selfhost"))) ≡ true)
        ⊎ (root ≡ none))

-- For options that it refuses, and outside the checkout, `Start` fails without having done anything.
-- Else it returns what one attempt returns, after at most two others, each of which failed
-- because an address was in use and left nothing behind; nor does the last, unless its cleanup
-- failed: it ran no docker command, or ended with the destruction of the project that it had
-- prepared, found to be its own. A project that is returned is the run's own.
pub start-Tried :
    (os : Os) (m : Machine) (fuel : ℕ) (root : Option Bytes) (o : Options) (w : World)
    → (Refused root o × ((f : Failure) × (start os m fuel root o w ≡ (err (plain f), w))))
      ⊎ ((directory : Bytes) × ((root ≡ some directory)
            × Tried os m fuel directory o 3 w (start os m fuel root o w)))
unfolding start
start-Tried os m fuel root o w = elim (Bool-cases (is_profile o.profile)) [
  | inr p ↦ rw p (inl (inl refl, (unsupported_profile, refl)))
  | inl p ↦
      elim (Bool-cases (o.expose_dependencies && not (bytes_eq o.profile (codes "selfhost")))) [
        | inl q ↦ rw (p, q) (inl (inr (inl refl), (probes_need_selfhost, refl)))
        | inr q ↦ elim (Option-cases root) [
          | inl r ↦ rw (p, q, r) (inl (inr (inr refl), (outside_checkout, refl)))
          | inr (directory, r) ↦
              rw (p, q, r)
                (inr (
                  directory,
                  (refl, tries-Tried os m fuel directory o 2 (plain outside_checkout) w),
                ))
        ]
      ]
]
