-- ===== src/Messaging/Reader/Stopping.antt =====
-- `StopPolling`, which several goroutines may call, and `stopping`.
use ingestkit.Prelude.{
  ℕ, zero, suc, ◌+◌, ◌≡◌, refl, ap, ◌∙◌, Bool, true, false, ◌&&◌, ltb, arith, if◌then◌else◌,
}

-- The channel `stop`, which a reader of `NewReader` has: how often it has been closed (a second time
-- panics), and whether the `stopOnce` is used up.
pub record StopState : Type 0 where
  pub has_channel : Bool
  pub closed : ℕ
  pub once_done : Bool

unfoldable pub stop_polling : StopState → StopState
stop_polling s =
    if s.once_done
    then s
    else record s { closed = if s.has_channel then s.closed + 1 else s.closed; once_done = true }

-- A receive from a closed channel succeeds; one from an open channel, or from none, never does.
unfoldable pub stopping : StopState → Bool
stopping s = s.has_channel && ltb 0 s.closed

unfoldable pub new_stop : StopState
new_stop = record { has_channel = true; closed = 0; once_done = false }

abbrev pub calls : ℕ → StopState → StopState
calls zero s = s
calls (suc n) s = calls n (stop_polling s)

stop_again : (s : StopState) → s.once_done ≡ true → stop_polling s ≡ s
unfolding stop_polling
stop_again s d = ground arith

calls_done : (n : ℕ) (s : StopState) → s.once_done ≡ true → calls n s ≡ s
calls_done zero s d = refl
calls_done (suc n) s d = ap (calls n) (stop_again s d) ∙ calls_done n s d

-- However often `StopPolling` is called, the channel is closed once; from the first call on, and
-- not before, the reader is stopping.
pub stopping-calls :
    (n : ℕ)
    → ((calls (suc n) new_stop).closed ≡ 1)
      × (stopping (calls (suc n) new_stop) ≡ true)
      × (stopping new_stop ≡ false)
unfolding stop_polling stopping new_stop
stopping-calls n = rw (calls_done n (stop_polling new_stop) refl) (refl, refl, refl)
