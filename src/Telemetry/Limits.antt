-- ===== src/Telemetry/Limits.antt =====
-- internal/runtimeinfo/limits.go: the limits of the process, as the system reports them.
use ingestkit.Prelude.{
  ℕ, ◌&&◌, Option, none, some, List, [], ◌∷◌, Bytes, ℤ, pos, ltb, leb, ◌==◌, if◌then◌else◌,
}
use ingestkit.Prelude.Strings.{fields}
use ingestkit.Event.Number.{digits}

pub data Limit : Type 0 where
  unavailable unlimited : Limit
  known : ℕ → Limit

pub record ProcessLimits : Type 0 where
  pub soft_fd_limit : Limit
  pub hard_fd_limit : Limit
  pub open_fds : Limit
  pub ephemeral_first : Limit
  pub ephemeral_last : Limit

-- The limits of file descriptors, with the number that stands for none.
pub record FdLimits : Type 0 where
  pub soft : ℕ
  pub hard : ℕ
  pub infinity : ℕ

abbrev limit_of : ℕ → ℕ → Limit
limit_of infinity n = if n == infinity then unlimited else known n

-- strconv.ParseUint(s, 10, 16)
unfoldable pub parse_port : Bytes → Option ℕ
parse_port s = elim (digits s) [ none ↦ none | some n ↦ if ltb n 0x1_0000 then some n else none ]

abbrev known_range : ℕ → ℕ → Limit × Limit
known_range a b = if ltb 0 a && leb a b then (known a, known b) else (unavailable, unavailable)

-- The first and the last of the ports that the system gives out.
unfoldable pub port_range : List Bytes → Limit × Limit
unfolding parse_port
port_range (first ∷ last ∷ []) = elim (parse_port first) [
  | none ↦ (unavailable, unavailable)
  | some a ↦ elim (parse_port last) [ none ↦ (unavailable, unavailable) | some b ↦ known_range a b ]
]
port_range _ = (unavailable, unavailable)

abbrev opened : Option ℤ → Limit
opened (some (pos n)) = known n
opened _ = unavailable

-- `captureLimits` on the answers of the three functions, none where one fails.
unfoldable pub capture_limits : Option FdLimits → Option ℤ → Option Bytes → ProcessLimits
unfolding port_range
capture_limits get fds ports =
    let soft : Limit = elim get [ none ↦ unavailable | some l ↦ limit_of l.infinity l.soft ] in
    let hard : Limit = elim get [ none ↦ unavailable | some l ↦ limit_of l.infinity l.hard ] in
    let range : Limit × Limit = elim ports [
      | none ↦ (unavailable, unavailable)
      | some raw ↦ port_range (fields raw)
    ] in
    record {
      soft_fd_limit = soft;
      hard_fd_limit = hard;
      open_fds = opened fds;
      ephemeral_first = range.0;
      ephemeral_last = range.1;
    }
