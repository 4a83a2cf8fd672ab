-- ===== src/Circuit/Step.antt =====
-- The methods of `CircuitBreaker` and `CircuitBreakerRegistry`.
use agentchains.Base.{ℕ, ◌+◌, Bool, true, false, none, some, [], ◌∷◌, ltb, leb, if◌then◌else◌}
use agentchains.Base.Dict.{Dict, lookup, insert}

pub data CircuitState : Type 0 where
  closed open_ half_open : CircuitState

pub record CircuitBreaker : Type 0 where
  pub failure_threshold : ℕ
  pub recovery_timeout : ℕ
  pub half_open_max_calls : ℕ
  pub state : CircuitState
  pub failure_count : ℕ
  pub success_count : ℕ
  pub half_open_calls : ℕ
  pub last_failure_time : ℕ

-- `CircuitBreaker(failure_threshold, recovery_timeout, half_open_max_calls)`
unfoldable pub new_breaker : ℕ → ℕ → ℕ → CircuitBreaker
new_breaker failure_threshold recovery_timeout half_open_max_calls = record {
  failure_threshold = failure_threshold;
  recovery_timeout = recovery_timeout;
  half_open_max_calls = half_open_max_calls;
  state = closed;
  failure_count = 0;
  success_count = 0;
  half_open_calls = 0;
  last_failure_time = 0;
}

-- The property `state`, by the state that is stored: the breaker after a possible OPEN -> HALF_OPEN.
abbrev refresh_from : CircuitState → ℕ → CircuitBreaker → CircuitBreaker
refresh_from open_ now b =
    if leb (b.last_failure_time + b.recovery_timeout) now
    then record b { state = half_open; half_open_calls = 0 }
    else b
refresh_from _ now b = b

unfoldable pub refresh : ℕ → CircuitBreaker → CircuitBreaker
refresh now b = refresh_from b.state now b

abbrev success_in : CircuitState → CircuitBreaker → CircuitBreaker
success_in half_open b =
    let counted = record b { success_count = b.success_count + 1 } in
    if leb b.half_open_max_calls (b.success_count + 1)
    then record b { state = closed; failure_count = 0; success_count = 0; half_open_calls = 0 }
    else counted
success_in closed b = record b { failure_count = 0 }
success_in open_ b = b

unfoldable pub record_success : ℕ → CircuitBreaker → CircuitBreaker
unfolding refresh
record_success now b = let b' = refresh now b in success_in b'.state b'

abbrev failure_in : CircuitState → CircuitBreaker → CircuitBreaker
failure_in half_open b = record b { state = open_; success_count = 0; half_open_calls = 0 }
failure_in closed b =
    if leb b.failure_threshold b.failure_count then record b { state = open_ } else b
failure_in open_ b = b

unfoldable pub record_failure : ℕ → CircuitBreaker → CircuitBreaker
record_failure now b =
    failure_in b.state (record b { failure_count = b.failure_count + 1; last_failure_time = now })

abbrev allow_in : CircuitState → CircuitBreaker → CircuitBreaker × Bool
allow_in closed b = (b, true)
allow_in open_ b = (b, false)
allow_in half_open b =
    if ltb b.half_open_calls b.half_open_max_calls
    then (record b { half_open_calls = b.half_open_calls + 1 }, true)
    else (b, false)

unfoldable pub allow_request : ℕ → CircuitBreaker → CircuitBreaker × Bool
unfolding refresh
allow_request now b = let b' = refresh now b in allow_in b'.state b'

unfoldable pub reset : CircuitBreaker → CircuitBreaker
reset b = record b {
  state = closed;
  failure_count = 0;
  success_count = 0;
  half_open_calls = 0;
  last_failure_time = 0;
}

abbrev pub Registry : Type 0
Registry = Dict CircuitBreaker

-- A missing breaker is made with the default thresholds; a tick is a second here.
unfoldable pub get_breaker : ℕ → Registry → Registry × CircuitBreaker
unfolding new_breaker
get_breaker agent_id r = elim (lookup agent_id r) [
  | some b ↦ (r, b)
  | none ↦ (insert agent_id (new_breaker 5 60 3) r, new_breaker 5 60 3)
]

unfoldable pub reset_all : Registry → Registry
unfolding reset
reset_all [] = []
reset_all ((k, b) ∷ r) = (k, reset b) ∷ reset_all r
