-- ===== src/Service/Diagnostics.antt =====
-- internal/service/diagnostics.go: the log of a consumer, at most one line in a cooldown for an
-- operation that keeps failing. A report runs under a lock, so it is one step.
pub mod Accounting
use ingestkit.Prelude.{
  ℕ, zero, suc, ◌+◌, ◌-◌, ◌≡◌, refl, Bool, true, false, not, ◌&&◌, ◌||◌, Option, none, some, List,
  [], ◌∷◌, Bytes, ℤ, pos, negsuc, leb, ltb, ◌==◌, all, length, if◌then◌else◌,
}

-- The kinds of operation that are reported; any other is passed over.
pub data Kind : Type 0 where
  startup storage quarantine progress : Kind
  unlisted : Kind

pub record DiagnosticState : Type 0 where
  pub failed : Bool
  pub last : ℕ
  pub suppressed : ℕ

abbrev pub initial : DiagnosticState
initial = record { failed = false; last = 0; suppressed = 0 }

pub data ErrorClass : Type 0 where
  operation deadline canceled database network : ErrorClass

-- An error, by what `errors.Is` and `errors.As` find in it.
pub record Cause : Type 0 where
  pub is_deadline : Bool
  pub is_canceled : Bool
  pub sql_code : Option Bytes
  pub is_network : Bool

abbrev alphanumeric : ℕ → Bool
alphanumeric c =
    (leb b'a' c && leb c b'z') || (leb b'A' c && leb c b'Z') || (leb b'0' c && leb c b'9')

-- `^[a-zA-Z0-9._-]{1,249}$`
unfoldable pub is_topic : Bytes → Bool
is_topic s =
    leb 1 (length s)
    && leb (length s) 249
    && all (λ c. alphanumeric c || (c == b'.') || (c == b'_') || (c == b'-')) s

-- `^[A-Z0-9]{5}$`
unfoldable pub is_sql_state : Bytes → Bool
is_sql_state s =
    (length s == 5) && all (λ c. (leb b'A' c && leb c b'Z') || (leb b'0' c && leb c b'9')) s

-- A line of the log. Nothing of the error but its class and an SQL state is in it.
pub record Line : Type 0 where
  pub recovered : Bool
  pub kind : Kind
  pub partition : ℕ
  pub offset : ℕ
  pub suppressed : ℕ
  pub topic : Option Bytes
  pub class : Option ErrorClass
  pub sql_state : Option Bytes

unfoldable pub classify : Cause → ErrorClass × Option Bytes
classify e =
    if e.is_deadline
    then (deadline, none)
    else if e.is_canceled
    then (canceled, none)
    else elim e.sql_code [
      | some code ↦ (database, if is_sql_state code then some code else none)
      | none ↦ (if e.is_network then network else operation, none)
    ]

pub record Report : Type 0 where
  pub kind : Kind
  pub topic : Bytes
  pub partition : ℕ
  pub offset : ℕ
  pub cause : Option Cause
  pub now : ℕ

unfoldable pub line : Report → DiagnosticState → Option (ErrorClass × Option Bytes) → Line
line r s found = record {
  recovered = elim found [ none ↦ true | some _ ↦ false ];
  kind = r.kind;
  partition = r.partition;
  offset = r.offset;
  suppressed = s.suppressed;
  topic = if is_topic r.topic then some r.topic else none;
  class = elim found [ none ↦ none | some p ↦ some p.0 ];
  sql_state = elim found [ none ↦ none | some p ↦ p.1 ];
}

-- A report on the state of its kind: the new state, and the line that is logged. `d.now()` never
-- goes back behind `state.last`, the time of an earlier report.
unfoldable pub report_state :
    ℕ → Report → Option Cause → DiagnosticState → DiagnosticState × Option Line
report_state cooldown r none s = if not s.failed then (s, none) else (initial, some (line r s none))
report_state cooldown r (some e) s =
    if s.failed && ltb (r.now - s.last) cooldown
    then (record s { suppressed = s.suppressed + 1 }, none)
    else (
      record { failed = true; last = r.now; suppressed = 0 },
      some (line r s (some (classify e))),
    )

-- The map of states, by its four possible keys.
pub record Diagnostics : Type 0 where
  pub cooldown : ℕ
  pub state : Kind → DiagnosticState

-- `NewDiagnostics`: a cooldown that is not positive takes ten seconds.
unfoldable pub new_diagnostics : ℤ → Diagnostics
new_diagnostics (pos n) = record {
  cooldown = if n == 0 then 10_000_000_000 else n;
  state = λ _. initial;
}
new_diagnostics (negsuc n) = record { cooldown = 10_000_000_000; state = λ _. initial }

unfoldable pub same_kind : Kind → Kind → Bool
same_kind startup startup = true
same_kind storage storage = true
same_kind quarantine quarantine = true
same_kind progress progress = true
same_kind _ _ = false

listed : Kind → Bool
listed unlisted = false
listed _ = true

unfoldable pub report : Diagnostics → Report → Diagnostics × Option Line
unfolding report_state same_kind listed
report d r =
    if not (listed r.kind)
    then (d, none)
    else let (s, logged) = report_state d.cooldown r r.cause (d.state r.kind) in
      (record d { state = λ k. if same_kind r.kind k then s else d.state k }, logged)
