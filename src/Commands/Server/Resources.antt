-- ===== src/Commands/Server/Resources.antt =====
-- What the API process has open at its end.
use ingestkit.Prelude.{
  ◌≡◌, refl, inl, inr, ℕ, zero, suc, ◌+◌, Option, none, some, Option-cases, List, [], ◌∷◌,
}
use ingestkit.Commands.Server.{
  Effect, made_publisher, closed_publisher, made_app, cleaned_app, listened, shut_down_app,
  flushed_publisher, End, failed, asked, Answers, serve, run,
}

-- How many publishers and apps are open after what is done, given how many were before; `none` if
-- one is closed that is not open.
pub record Open : Type 0 where
  pub publishers : ℕ
  pub apps : ℕ

abbrev step : Effect → Open → Option Open
step made_publisher o = some (record o { publishers = o.publishers + 1 })
step closed_publisher o = elim o.publishers [
  | zero ↦ none
  | suc n ↦ some (record o { publishers = n })
]
step made_app o = some (record o { apps = o.apps + 1 })
step cleaned_app o = elim o.apps [ zero ↦ none | suc n ↦ some (record o { apps = n }) ]
step flushed_publisher o = elim o.publishers [ zero ↦ none | suc n ↦ some o ]
step shut_down_app o = elim o.apps [ zero ↦ none | suc n ↦ some o ]
step _ o = some o

abbrev steps : List Effect → Open → Option Open
steps [] o = some o
steps (e ∷ es) o = elim (step e o) [ none ↦ none | some p ↦ steps es p ]

abbrev nothing_open : Open
nothing_open = record { publishers = 0; apps = 0 }

closed_by :
    (e : End)
    → steps (made_publisher ∷ made_app ∷ listened ∷ (serve e).1) nothing_open ≡ some nothing_open
unfolding serve
closed_by (failed closed e) = refl
closed_by (asked closed shutdown flush late) = refl

-- Whatever the steps of `run` are answered, a publisher or an app that is made is closed, once, and
-- neither is used after that.
pub steps-run : (a : Answers) → steps (run a).1 nothing_open ≡ some nothing_open
unfolding run
steps-run a = elim (Option-cases a.config) [
  | inr (e, c) ↦ rw c refl
  | inl c ↦ rw c (elim (Option-cases a.publisher) [
    | inr (e, p) ↦ rw p refl
    | inl p ↦ rw p (elim (Option-cases a.app) [
      | inr (e, q) ↦ rw q refl
      | inl q ↦
          rw q (elim (Option-cases a.listen) [
            | inr (e, l) ↦ rw l refl
            | inl l ↦ rw l (closed_by a.end)
          ])
    ])
  ])
]
