-- ===== src/Examples/Demos.antt =====
-- A demo with a stop of the database, on a project without containers.
use ingestkit.Prelude.{true, false, none, some, [], ◌∷◌, ok, codes}
use ingestkit.Runenv.Demo.Run.{DemoOptions, DemoMachine}

abbrev two_events : DemoMachine
two_events = record {
  pool = λ tick. none;
  events = λ tick. ok (7 ∷ 9 ∷ []);
  reply = λ tick. ok (202, some (7 ∷ 9 ∷ []));
  rows = λ tick. some (9 ∷ 7 ∷ []);
  over = λ tick. false;
  counts = λ tick. ok [];
  report = λ tick. codes "{}";
}

abbrev with_recovery : DemoOptions
with_recovery = record { recovery = true; cleanup = true }
