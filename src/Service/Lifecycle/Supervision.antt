-- ===== src/Service/Lifecycle/Supervision.antt =====
-- When the supervision of a process ends, and how many attempts it makes.
use ingestkit.Prelude.{
  ℕ, zero, suc, ◌+◌, ◌*◌, ◌≤◌, ◌<◌, ◌≡◌, refl, ◌≢◌, ◌⊎◌, inl, inr, Option, none, some, Option-cases,
  arith,
}
use ingestkit.Service.Lifecycle.{
  ServiceError, Context, Wait, stopped, cancelled_work, elapsed, Outcome, Select, select_wait,
  supervise,
}

-- A context that is done from the moment `at` on: it stays done.
abbrev pub DoneFrom : Context → ℕ → Type 0
DoneFrom c at = (n : ℕ) → at ≤ n → c n ≢ none

undone : (c : Context) (at n : ℕ) → DoneFrom c at → c n ≡ none → n < at
undone c at n done e = elim (Lt-or n at) [ inl l ↦ l | inr g ↦ absurd (done n g e) ]
  where
    Lt-or : (a b : ℕ) → (a < b) ⊎ (b ≤ a)
    Lt-or a b = omega arith

Wait-cases : (w : Wait) → (w ≡ elapsed) ⊎ ((w ≡ stopped) ⊎ (w ≡ cancelled_work))
Wait-cases elapsed = inl refl
Wait-cases stopped = inr (inl refl)
Wait-cases cancelled_work = inr (inr refl)

module _ (stop work : Context) (attempt : ℕ → Option ServiceError) (select : ℕ → Select) where
  -- The outcome of a loop that begins at `t` with `made` attempts, when a context is done from `at`.
  abbrev pub EndsBy : ℕ → ℕ → ℕ → Option Outcome → Type 0
  EndsBy at t made r =
      (o : Outcome) × ((r ≡ some o)
        × ((o.attempts ≡ made) ⊎ (6 * o.attempts + t < at + 6 * made + 6)))

  last_round :
      (at t made : ℕ) (e : _)
      → t < at
      → EndsBy at t made (some (record { errors = e; attempts = suc made }))
  last_round at t made e l = (_, (refl, inr (omega arith)))

  later :
      (at t made : ℕ) (r : Option Outcome)
      → t < at
      → EndsBy at (t + 6) (suc made) r
      → EndsBy at t made r
  later at t made r l (o, (e, inl same)) = (o, (e, inr (omega (arith, same))))
  later at t made r l (o, (e, inr fewer)) = (o, (e, inr (omega (arith, fewer))))

  -- If either context is done from the moment `at` on, a supervision that begins at `t`, with fuel for
  -- one round more than begin before `at`, returns an outcome, and it makes no more attempts than
  -- rounds begin before `at`, six moments each.
  pub supervise-EndsBy :
      (at fuel t made : ℕ)
      → DoneFrom stop at ⊎ DoneFrom work at
      → 1 ≤ fuel
      → at + 6 ≤ t + 6 * fuel
      → EndsBy at t made (supervise stop work attempt select fuel t made)
  unfolding supervise
  supervise-EndsBy at zero t made done some_fuel enough = absurd (omega arith)
  supervise-EndsBy at (suc fuel) t made done some_fuel enough = elim (Option-cases (work t)) [
    | inr (e, w) ↦ rw (supervise, w) (_, (refl, inl refl))
    | inl w ↦
        rw (supervise, w)
          (elim (Option-cases (stop (t + 1))) [
            | inr (e, s) ↦ rw (supervise, s) (_, (refl, inl refl))
            | inl s ↦
                rw (supervise, s)
                  (elim (Option-cases (work (t + 3))) [
                    | inr (e, w3) ↦ rw (supervise, w3) (last_round at t made _ (before w s))
                    | inl w3 ↦
                        rw (supervise, w3)
                          (elim (Option-cases (stop (t + 4))) [
                            | inr (e, s4) ↦ rw (supervise, s4) (last_round at t made _ (before w s))
                            | inl s4 ↦
                                rw (supervise, s4)
                                  (elim (Wait-cases
                                    (select_wait (stop (t + 5)) (work (t + 5)) (select (t + 5)))) [
                                      | inl e ↦
                                          rw (supervise, e)
                                            (later at t made _ (before w s) (
                                              supervise-EndsBy at fuel (t + 6) (suc made) done
                                                (omega (arith, before w s)) (omega arith)))
                                      | inr (inl e) ↦
                                          rw (supervise, e) (last_round at t made _ (before w s))
                                      | inr (inr e) ↦
                                          rw (supervise, e) (last_round at t made _ (before w s))
                                    ])
                          ])
                  ])
          ])
  ]
    where
      before : work t ≡ none → stop (t + 1) ≡ none → t < at
      before w s = elim done [
        | inl d ↦ omega (arith, undone stop at (t + 1) d s)
        | inr d ↦ undone work at t d w
      ]
