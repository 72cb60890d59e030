-- ===== src/Service/Diagnostics/Accounting.antt =====
-- No failure is lost from the log: each is a line of its own or counted in a later line.
use ingestkit.Prelude.{
  ℕ, ◌+◌, ◌≡◌, refl, inl, inr, Bool, true, false, Option, none, some, List, [], ◌∷◌, arith,
  Bool-cases, if◌then◌else◌, ap, sym,
}
use ingestkit.Service.Diagnostics.{
  Kind, startup, storage, quarantine, progress, unlisted, DiagnosticState, Cause, Line, line,
  Report, report_state, Diagnostics, same_kind, listed, report,
}

abbrev pub failures_of : Kind → Report → ℕ
failures_of k r = if same_kind r.kind k then (elim r.cause [ none ↦ 0 | some _ ↦ 1 ]) else 0

-- The failures that a line speaks of: its own, and those that it counts as suppressed.
abbrev pub told : Kind → Option Line → ℕ
told k none = 0
told k (some l) = if same_kind l.kind k then l.suppressed + (if l.recovered then 0 else 1) else 0

-- A list of reports: the failures of a kind in them, and those that the lines speak of.
abbrev pub failures : Kind → List Report → ℕ
failures k [] = 0
failures k (r ∷ rs) = failures_of k r + failures k rs

abbrev pub told_all : Kind → Diagnostics → List Report → ℕ
told_all k d [] = 0
told_all k d (r ∷ rs) = told k (report d r).1 + told_all k (report d r).0 rs

abbrev pub report_all : Diagnostics → List Report → Diagnostics
report_all d [] = d
report_all d (r ∷ rs) = report_all (report d r).0 rs

abbrev own : Option Line → ℕ
own none = 0
own (some l) = l.suppressed + (if l.recovered then 0 else 1)

report_state-accounts :
    (cooldown : ℕ) (r : Report) (cause : Option Cause) (s : DiagnosticState)
    → own (report_state cooldown r cause s).1 + (report_state cooldown r cause s).0.suppressed
      ≡ (elim cause [ none ↦ 0 | some _ ↦ 1 ]) + s.suppressed
unfolding report_state line
report_state-accounts cooldown r none s = elim (Bool-cases s.failed) [
  | inl e ↦ rw e (omega arith)
  | inr e ↦ rw e refl
]
report_state-accounts cooldown r (some e) s = ground arith

if_zero : (b : Bool) → ◌≡◌ {A = ℕ} 0 (if b then 0 else 0)
if_zero true = refl
if_zero false = refl

-- A line is of the kind of its report.
told-report_state :
    (k : Kind) (cooldown : ℕ) (r : Report) (cause : Option Cause) (s : DiagnosticState)
    → told k (report_state cooldown r cause s).1
      ≡ (if same_kind r.kind k then own (report_state cooldown r cause s).1 else 0)
unfolding report_state line
told-report_state k cooldown r none s = elim (Bool-cases s.failed) [
  | inl e ↦ rw e refl
  | inr e ↦ rw e (if_zero (same_kind r.kind k))
]
told-report_state k cooldown r (some e) s = ground arith

same_kind_eq : (j k : Kind) → same_kind j k ≡ true → j ≡ k
unfolding same_kind
same_kind_eq startup startup e = refl
same_kind_eq storage storage e = refl
same_kind_eq quarantine quarantine e = refl
same_kind_eq progress progress e = refl
same_kind_eq startup storage e = absurd (ground arith)
same_kind_eq startup quarantine e = absurd (ground arith)
same_kind_eq startup progress e = absurd (ground arith)
same_kind_eq startup unlisted e = absurd (ground arith)
same_kind_eq storage startup e = absurd (ground arith)
same_kind_eq storage quarantine e = absurd (ground arith)
same_kind_eq storage progress e = absurd (ground arith)
same_kind_eq storage unlisted e = absurd (ground arith)
same_kind_eq quarantine startup e = absurd (ground arith)
same_kind_eq quarantine storage e = absurd (ground arith)
same_kind_eq quarantine progress e = absurd (ground arith)
same_kind_eq quarantine unlisted e = absurd (ground arith)
same_kind_eq progress startup e = absurd (ground arith)
same_kind_eq progress storage e = absurd (ground arith)
same_kind_eq progress quarantine e = absurd (ground arith)
same_kind_eq progress unlisted e = absurd (ground arith)
same_kind_eq unlisted startup e = absurd (ground arith)
same_kind_eq unlisted storage e = absurd (ground arith)
same_kind_eq unlisted quarantine e = absurd (ground arith)
same_kind_eq unlisted progress e = absurd (ground arith)
same_kind_eq unlisted unlisted e = absurd (ground arith)

listed_of : (j k : Kind) → same_kind j k ≡ true → listed j ≡ true
unfolding same_kind listed
listed_of startup k e = refl
listed_of storage k e = refl
listed_of quarantine k e = refl
listed_of progress k e = refl
listed_of unlisted startup e = absurd (ground arith)
listed_of unlisted storage e = absurd (ground arith)
listed_of unlisted quarantine e = absurd (ground arith)
listed_of unlisted progress e = absurd (ground arith)
listed_of unlisted unlisted e = absurd (ground arith)

report-accounts_same :
    (k : Kind) (d : Diagnostics) (r : Report)
    → same_kind r.kind k ≡ true
    → told k (report d r).1 + ((report d r).0.state k).suppressed
      ≡ failures_of k r + (d.state k).suppressed
unfolding report
report-accounts_same k d r e =
    rw
      (
        listed_of r.kind k e,
        told-report_state k d.cooldown r r.cause (d.state r.kind),
        e,
        ap d.state (sym (same_kind_eq r.kind k e)),
      )
      (report_state-accounts d.cooldown r r.cause (d.state r.kind))

report-accounts_other :
    (k : Kind) (d : Diagnostics) (r : Report)
    → same_kind r.kind k ≡ false
    → told k (report d r).1 + ((report d r).0.state k).suppressed
      ≡ failures_of k r + (d.state k).suppressed
unfolding report
report-accounts_other k d r e = elim (Bool-cases (listed r.kind)) [
  | inl l ↦ rw (l, told-report_state k d.cooldown r r.cause (d.state r.kind), e) refl
  | inr l ↦ rw (l, e) refl
]

report-accounts :
    (k : Kind) (d : Diagnostics) (r : Report)
    → told k (report d r).1 + ((report d r).0.state k).suppressed
      ≡ failures_of k r + (d.state k).suppressed
report-accounts k d r = elim (Bool-cases (same_kind r.kind k)) [
  | inl e ↦ report-accounts_same k d r e
  | inr e ↦ report-accounts_other k d r e
]

add_both : (a b c d e f s : ℕ) → a + s ≡ b + c → d + e ≡ f + s → (a + d) + e ≡ (b + f) + c
add_both a b c d e f s p q = omega arith

-- In a run of reports, the failures of a kind that the lines of the log speak of (each its own,
-- and those it counts as suppressed), with those that its state still holds, are the failures
-- that were reported and those that the state held before: none is lost or counted twice.
pub report_all-accounts :
    (k : Kind) (d : Diagnostics) (rs : List Report)
    → told_all k d rs + ((report_all d rs).state k).suppressed
      ≡ failures k rs + (d.state k).suppressed
report_all-accounts k d [] = refl
report_all-accounts k d (r ∷ rs) =
    add_both _ _ _ _ _ _ _ (report-accounts k d r) (report_all-accounts k (report d r).0 rs)
