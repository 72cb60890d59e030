-- ===== src/Commands/Consumer/Readiness.antt =====
-- Readiness while a consumer shuts down, with the reports of its reader.
use ingestkit.Prelude.{
  ◌≡◌, refl, Bool, true, false, not, Option, List, [], ◌∷◌, ◌++◌, Bytes, bytes_eq, bytes_eq_refl,
  codes, if◌then◌else◌,
}
use ingestkit.Messaging.World.{Kind, storage, quarantine, progress, Effect, notified}
use ingestkit.Service.Health.{
  ProcessingHealth, observe, Reports, observe_all, last_failing, lookup-observe, ready-failing,
}
use ingestkit.Service.Lifecycle.{ServiceError}
use ingestkit.Commands.Consumer.{readiness, Ending, finish}

unfoldable pub kind_name : Kind → Bytes
kind_name storage = codes "storage"
kind_name quarantine = codes "quarantine"
kind_name progress = codes "progress"

-- What a reader reports to the health of the process: its notifications, from a trace that has the
-- newest effect first.
unfoldable pub reports_of : List Effect → Reports
reports_of [] = []
reports_of (notified kind r success ∷ trace) =
    reports_of trace ++ (kind_name kind, not success) ∷ []
reports_of (_ ∷ trace) = reports_of trace

last_failing-append :
    (operation : Bytes) (before : Bool) (reports more : Reports)
    → last_failing operation before (reports ++ more)
      ≡ last_failing operation (last_failing operation before reports) more
last_failing-append operation before [] more = refl
last_failing-append operation before ((other, failing) ∷ reports) more =
    last_failing-append operation (if bytes_eq other operation then failing else before) reports
      more

no_shutdown : (kind : Kind) → bytes_eq (kind_name kind) (codes "shutdown") ≡ false
unfolding kind_name bytes_eq
no_shutdown storage = refl
no_shutdown quarantine = refl
no_shutdown progress = refl

-- No notification of a reader is about the shutdown.
still_failing :
    (trace : List Effect) → last_failing (codes "shutdown") true (reports_of trace) ≡ true
unfolding reports_of
still_failing [] = refl
still_failing (notified kind r success ∷ trace) =
    rw last_failing-append (rw (no_shutdown kind) (still_failing trace))
still_failing (e ∷ trace) = still_failing trace

-- Once a consumer has begun to shut down, a request for its readiness is answered with 503, in
-- whatever health it was, whatever its reader goes on to report, and whatever the store and the
-- broker answer.
pub readiness-finish :
    (e : Ending) (health : ProcessingHealth) (trace : List Effect) (store : Option ServiceError)
    (reader : Option (Option ServiceError))
    → readiness (observe_all (finish e health).0 (reports_of trace)) store reader ≡ 503
unfolding readiness finish
readiness-finish e health trace store reader =
    rw
      (ready-failing (observe health (codes "shutdown") true) (codes "shutdown") (reports_of trace)
        (rw lookup-observe (rw bytes_eq_refl refl)) (still_failing trace))
      refl
