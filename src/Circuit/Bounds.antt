-- ===== src/Circuit/Bounds.antt =====
-- The counters of a breaker between two calls, and what its trial window lets through.
use agentchains.Base.{ℕ, ◌+◌, ◌≤◌, ◌<◌, ◌≡◌, List, [], ◌∷◌, arith, if◌then◌else◌}
use agentchains.Circuit.Step.{
  closed, open_, half_open, CircuitBreaker, record_success, record_failure, allow_request, reset,
  new_breaker, refresh,
}

pub record IsValid (b : CircuitBreaker) : Type 0 where
  pub closed_below : b.state ≡ closed → b.failure_count < b.failure_threshold
  pub closed_idle : b.state ≡ closed → (b.success_count ≡ 0) × (b.half_open_calls ≡ 0)
  pub open_idle : b.state ≡ open_ → (b.success_count ≡ 0) × (b.half_open_calls ≡ 0)
  pub trial_successes : b.state ≡ half_open → b.success_count < b.half_open_max_calls
  pub trial_calls : b.half_open_calls ≤ b.half_open_max_calls
  pub threshold_set : 0 < b.failure_threshold
  pub trial_set : 0 < b.half_open_max_calls

-- One call by the users of a breaker, at a reading of the clock; the property `state` moves it too.
pub data Call : Type 0 where
  success failure request read_state : ℕ → Call
  manual_reset : Call

-- The breaker after the call, and how many requests it let through.
unfoldable pub call : Call → CircuitBreaker → CircuitBreaker × ℕ
unfolding record_success record_failure allow_request reset refresh
call (success now) b = (record_success now b, 0)
call (failure now) b = (record_failure now b, 0)
call (request now) b = let (b', granted) = allow_request now b in (b', if granted then 1 else 0)
call (read_state now) b = (refresh now b, 0)
call manual_reset b = (reset b, 0)

unfoldable pub calls : List Call → CircuitBreaker → CircuitBreaker × ℕ
calls [] b = (b, 0)
calls (c ∷ cs) b = let (b', n) = call c b in let (b'', m) = calls cs b' in (b'', n + m)

call-IsValid : (c : Call) (b : CircuitBreaker) → IsValid b → IsValid (call c b).0
unfolding call
call-IsValid (success now) b v = ground arith
call-IsValid (failure now) b v = ground arith
call-IsValid (request now) b v = ground arith
call-IsValid (read_state now) b v = ground arith
call-IsValid manual_reset b v = ground arith

pub calls-IsValid : (cs : List Call) (b : CircuitBreaker) → IsValid b → IsValid (calls cs b).0
unfolding calls
calls-IsValid [] b v = v
calls-IsValid (c ∷ cs) b v = calls-IsValid cs (call c b).0 (call-IsValid c b v)

-- From a new breaker with positive thresholds, every sequence of calls at any times leaves the
-- counters in their bounds: closed below the failure threshold, at most `half_open_max_calls` trial
-- calls, fewer successes than that in the trial window, and no trial counters outside of it.
pub calls_keep_bounds :
    (f r h : ℕ) (cs : List Call) → 0 < f → 0 < h → IsValid (calls cs (new_breaker f r h)).0
unfolding new_breaker
calls_keep_bounds f r h cs hf hh = calls-IsValid cs (new_breaker f r h) (ground arith)
