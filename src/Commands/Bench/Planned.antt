-- ===== src/Commands/Bench/Planned.antt =====
-- Which flags a study and the other modes take.
use ingestkit.Prelude.{
  ℕ, ◌≡◌, refl, sym, ap, ◌∙◌, ◌↔◌, inl, inr, Bool, true, false, ◌&&◌, Option, none, some, List, [],
  ◌∷◌, Bytes, bytes_eq, bytes_eq_iff, codes, length, ◌==◌, ok, Result-cases, All, arith,
  if◌then◌else◌,
}
use ingestkit.Commands.Bench.{
  Flags, Mode, database, pipeline, study, calibrate, mode_of, is_one_of, study_flags, unsupported,
  Plan, run_study, plan_mode, plan,
}

unsupported_iff :
    (found : Option Bytes) (names : List Bytes)
    → (unsupported found names ≡ none)
      ↔ ((found ≡ none) × All (λ n. is_one_of study_flags n ≡ true) names)
unfolding unsupported
unsupported_iff found [] = (λ h. (h, tt), λ h. h.0)
unsupported_iff found (n ∷ names) =
    ground (arith, unsupported_iff (if is_one_of study_flags n then found else some n) names)

mode_of-study_iff : (s : Bytes) → (mode_of s ≡ ok study) ↔ (s ≡ codes "study")
unfolding mode_of bytes_eq
mode_of-study_iff s = ground (arith, bytes_eq_iff s (codes "study"))

-- What a study needs of its flags.
pub record Resumable (f : Flags) : Type 0 where
  pub no_arguments : f.rest ≡ []
  pub study_mode : f.mode ≡ codes "study"
  pub registered : All (λ n. is_one_of study_flags n ≡ true) f.visited
  pub resumable : (f.resume && (length f.out == 0)) ≡ false

module _ (workload : Option ℕ) (f : Flags) where
  study-planned :
      Resumable f → plan workload (some f) ≡ ok (run_study f.suite f.out f.smoke f.resume)
  unfolding plan plan_mode
  study-planned i =
      let none_found = (unsupported_iff none f.visited).1 (refl, i.registered) in
      let mode = (mode_of-study_iff f.mode).1 i.study_mode in
      let chosen : plan_mode workload study f ≡ ok (run_study f.suite f.out f.smoke f.resume) =
        ground (arith, none_found, i.resumable) in
      ground (arith, i.no_arguments, mode, chosen)

  plan-mode :
      (p : Plan)
      → plan workload (some f) ≡ ok p
      → (f.rest ≡ []) × (m : Mode) × (mode_of f.mode ≡ ok m) × (plan_mode workload m f ≡ ok p)
  unfolding plan
  plan-mode p h = elim (Result-cases (mode_of f.mode)) [
    | inl (m, e) ↦ (ground arith, m, e, ground (arith, e))
    | inr (x, e) ↦ absurd (ground arith)
  ]

  mode-study :
      (m : Mode) (p : Plan) (s o : Bytes) (k r : Bool)
      → p ≡ run_study s o k r
      → plan_mode workload m f ≡ ok p
      → (m ≡ study)
        × (unsupported none f.visited ≡ none)
        × ((f.resume && (length f.out == 0)) ≡ false)
        × (p ≡ run_study f.suite f.out f.smoke f.resume)
  unfolding plan_mode
  mode-study study p s o k r e h = ground arith
  mode-study database p s o k r e h = absurd (ground arith)
  mode-study pipeline p s o k r e h = absurd (ground arith)
  mode-study calibrate p s o k r e h = absurd (ground arith)

  -- A study is run exactly for the mode of that name, without further arguments, with none but its
  -- own flags, and resumed only with a directory; it gets the values of the flags.
  pub plan-study_iff :
      (s o : Bytes) (k r : Bool)
      → (plan workload (some f) ≡ ok (run_study s o k r))
        ↔ (Resumable f × (run_study s o k r ≡ run_study f.suite f.out f.smoke f.resume))
  plan-study_iff s o k r = (
    λ h.
        let (none_left, m, e, q) = plan-mode (run_study s o k r) h in
        let (same, u, v, t) = mode-study m (run_study s o k r) s o k r refl q in
        (
          record {
            no_arguments = none_left;
            study_mode = (mode_of-study_iff f.mode).0 (e ∙ ap ok same);
            registered = ((unsupported_iff none f.visited).0 u).1;
            resumable = v;
          },
          t,
        ),
    λ w. study-planned w.0 ∙ ap ok (sym w.1),
  )
